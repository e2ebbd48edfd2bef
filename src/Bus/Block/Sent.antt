-- ===== src/Bus/Block/Sent.antt =====
-- What `cyw43_write_bytes` puts on the wire.
use zephyr_cyw43_driver.Prelude.{
  ℕ, zero, suc, ◌+◌, ◌*◌, ◌/◌, ◌≤◌, ◌≡◌, arith, refl, ap, sym, ◌∙◌, true, false, leb, List, [], ◌∷◌,
  ◌++◌, Option, some, none, take, drop, length, ◌==◌, length-take, length-drop, drop-append_of_le,
  drop-drop,
}
use mathlib.Core.Path.{subst}
use zephyr_cyw43_driver.Prelude.Fault.{◌>>=◌, ◌>>◌}
use zephyr_cyw43_driver.Bus.Platform.{BusPlatform, BusCall}
use zephyr_cyw43_driver.Bus.Word.{make_cmd, align4, word_bytes}
use zephyr_cyw43_driver.Bus.Transfer.{Bus, spi_transfer}
use zephyr_cyw43_driver.Bus.Transfer.Interrupts.{exchanged, unmasked, spi_transfer-send}
use zephyr_cyw43_driver.Bus.Block.{check_length, buf_offset, send_frame, write_bytes}
use zephyr_cyw43_driver.Bus.Block.Splice.{splice, length-splice, drop-splice, write_bytes_at-splice}
use zephyr_cyw43_driver.Bus.Block.Payload.{put_command_lem}

take-nil : (n : ℕ) → take {A = ℕ} n [] ≡ []
take-nil zero = refl
take-nil (suc n) = refl

drop-take : (o j : ℕ) (xs : List ℕ) → drop o (take (o + j) xs) ≡ take j (drop o xs)
drop-take zero j xs = ap (λ n. take n xs) (omega arith)
drop-take (suc o) j [] = ap (drop (suc o)) (take-nil (suc o + j)) ∙ sym (take-nil j)
drop-take (suc o) j (x ∷ xs) =
    let e : suc o + j ≡ suc (o + j) = omega arith in
    ap (λ n. drop (suc o) (take n (x ∷ xs))) e ∙ drop-take o j xs

-- A frame with a command at the offset `o`, and then `payload` behind it.
module _ (frame payload : List ℕ) (o cmd : ℕ) where
  abbrev pub framed : List ℕ
  framed = splice (splice frame o (word_bytes cmd)) (o + 4) payload

  -- What stays in the frame behind the payload.
  abbrev pub stale : List ℕ
  stale = drop (o + 4 + length payload) frame

  pub length-framed : o + 4 + length payload ≤ length frame → length framed ≡ length frame
  length-framed h =
      let same : length (splice frame o (word_bytes cmd)) ≡ length frame =
        length-splice frame o (word_bytes cmd) (omega arith) in
      length-splice (splice frame o (word_bytes cmd)) (o + 4) payload (omega (arith, same)) ∙ same

  command_tail :
      o + 4 ≤ length frame → drop (o + 4) (splice frame o (word_bytes cmd)) ≡ drop (o + 4) frame
  command_tail h = drop-splice frame o 4 (word_bytes cmd) (omega arith) (omega arith)

  command_head :
      o + 4 ≤ length frame
      → drop o (take (o + 4) (splice frame o (word_bytes cmd))) ≡ word_bytes cmd
  command_head h =
      let zeroth : o + 0 ≡ o = omega arith in
      drop-take o 4 (splice frame o (word_bytes cmd))
      ∙ ap (λ n. take 4 (drop n (splice frame o (word_bytes cmd)))) (sym zeroth)
      ∙ ap (take 4) (drop-splice frame o 0 (word_bytes cmd) (omega arith) (omega arith))

  pub drop-framed :
      o + 4 + length payload ≤ length frame → drop o framed ≡ word_bytes cmd ++ (payload ++ stale)
  drop-framed h =
      let first : List ℕ = splice frame o (word_bytes cmd) in
      let same : length first ≡ length frame =
        length-splice frame o (word_bytes cmd) (omega arith) in
      drop-append_of_le o (take (o + 4) first) (payload ++ drop (o + 4 + length payload) first)
        (omega (arith, length-take (o + 4) first, same))
      ∙ ap (λ t. t ++ (payload ++ drop (o + 4 + length payload) first)) (command_head (omega arith))
      ∙ ap (λ t. word_bytes cmd ++ (payload ++ t))
          (sym (drop-drop (o + 4) (length payload) first)
            ∙ ap (drop (length payload)) (command_tail (omega arith))
            ∙ drop-drop (o + 4) (length payload) frame)

module _ (p : BusPlatform) (s : Bus) (fn addr len n : ℕ) (bytes : List ℕ) where
  abbrev at : ℕ
  at = p.read_pad / 4 * 4

  -- The bytes of the command, of the caller's buffer, and of what the frame held behind them.
  abbrev pub wire : List ℕ
  wire = take (n + 4) (
      word_bytes (make_cmd true true fn addr len)
      ++ (take len bytes ++ stale s.frame (take len bytes) at (make_cmd true true fn addr len)))

  abbrev pub block_sent : List BusCall
  block_sent = exchanged (some wire) (n + 4) 0 s.log

  -- A transfer of `tx`, as a transfer of bytes that start like `x`.
  abbrev Transfer : Bus → List ℕ → List ℕ → Type 0
  Transfer st tx x =
      let l : List BusCall = exchanged (some (take (n + 4) x)) (n + 4) 0 st.log in
      spi_transfer p (some tx) (n + 4) none 0 st
      ≡ some ((p.ret l, none), record st { log = unmasked l })

  -- The part behind the wait returns the code of one transfer of `n` bytes behind the command, of
  -- which the first `len` are the caller's.
  pub send_frame_lem :
      len ≤ length bytes
      → len ≤ n
      → buf_offset p + n ≤ length s.frame
      → send_frame p fn addr len n (some bytes) s
        ≡ some (
          p.ret block_sent,
          record s {
            frame = framed s.frame (take len bytes) at (make_cmd true true fn addr len);
            log = unmasked block_sent;
          },
        )
  unfolding send_frame
  send_frame_lem whole small fits =
      let cmd : ℕ = make_cmd true true fn addr len in
      let payload : List ℕ = take len bytes in
      let measured : length payload ≡ len = omega (arith, length-take len bytes) in
      let room : at + 4 ≤ length s.frame = omega (arith, fits) in
      let first : List ℕ = splice s.frame at (word_bytes cmd) in
      let same : length first ≡ length s.frame = length-splice s.frame at (word_bytes cmd) room in
      let all : List ℕ = framed s.frame payload at cmd in
      let inside : buf_offset p + length payload ≤ length first =
        omega (arith, fits, same, measured) in
      let st : Bus = record s { frame = all } in
      let enough : n + 4 ≤ length (drop at all) = omega (
        arith,
        fits,
        same,
        length-drop at all,
        length-splice first (buf_offset p) payload inside,
      ) in
      let transfer : Transfer st (drop at all) (drop at all) =
        spi_transfer-send p st (drop at all) (n + 4) enough in
      let reached : Transfer st (drop at all)
          (word_bytes cmd ++ (payload ++ stale s.frame payload at cmd)) =
        subst (Transfer st (drop at all))
          (drop-framed s.frame payload at cmd (omega (arith, fits, measured))) transfer in
      let long : leb len (length bytes) ≡ true = ground (arith, whole) in
      rw
        (
          put_command_lem p at cmd s room,
          ◌>>◌,
          ◌>>=◌,
          long,
          write_bytes_at-splice first (buf_offset p) payload inside,
          reached,
        )
        refl

-- A write of a block to the bus's own registers or to the backplane: no wait.
pub write_bytes-send_frame :
    (p : BusPlatform) (s : Bus) (fn addr len : ℕ) (src : Option (List ℕ))
    → (fn == p.wlan_function) ≡ false
    → check_length p fn len s ≡ some (align4 len, s)
    → write_bytes p fn addr len src s ≡ send_frame p fn addr len (align4 len) src s
unfolding write_bytes
write_bytes-send_frame p s fn addr len src other checks = rw (checks, ◌>>=◌, other) refl
