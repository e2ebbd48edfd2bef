-- ===== src/Bus/Block/Memory.antt =====
-- Blocks as a memory: what `cyw43_write_bytes` stores, `cyw43_read_bytes` returns.
use zephyr_cyw43_driver.Prelude.{
  ℕ, ◌+◌, ◌/◌, ◌%◌, ◌^◌, ◌<◌, ◌≤◌, ◌≡◌, arith, ap, sym, ◌∙◌, true, false, List, ◌∷◌, ◌++◌, some,
  take, drop, length, ◌==◌, ◌*◌, length-take, length-append, length-drop, take-append,
}
use zephyr_cyw43_driver.Prelude.Int.{pos}
use zephyr_cyw43_driver.Prelude.Fault.{Returns, Returns-weaken}
use zephyr_cyw43_driver.Bus.Platform.{BusPlatform, BusCall, PinState, Trigger, transceive}
use zephyr_cyw43_driver.Bus.Word.{make_cmd, align4, word_bytes}
use zephyr_cyw43_driver.Bus.Word.Fields.{align4_lem}
use zephyr_cyw43_driver.Bus.Transfer.{Bus}
use zephyr_cyw43_driver.Bus.Transfer.Interrupts.{masked, unmasked}
use zephyr_cyw43_driver.Bus.Register.{padding}
use zephyr_cyw43_driver.Bus.Register.Memory.{fn_of, addr_of, Fields, Fields-make_cmd}
use zephyr_cyw43_driver.Bus.Block.{check_length, buf_offset, read_bytes, write_bytes}
use zephyr_cyw43_driver.Bus.Block.Payload.{block_asked, expected, read_bytes_lem}
use zephyr_cyw43_driver.Bus.Block.Sent.{
  framed, stale, length-framed, block_sent, send_frame_lem, write_bytes-send_frame,
}

-- The size field of a command word.
abbrev pub size_of : ℕ → ℕ
size_of w = w % 2 ^ 11

-- A chip behind the bus that keeps blocks: a transfer that starts with a write command stores as
-- many of the bytes behind it as its size field says, and one with a read command answers with the
-- padding and the block. `block` is what the chip holds after the calls of a log.
pub record BlockChip (p : BusPlatform) : Type 0 where
  pub block : List BusCall → (fn addr size : ℕ) → List ℕ
  pub succeeds : (l : List BusCall) → p.ret l ≡ pos 0
  pub pins : (l : List BusCall) (x : PinState) → block (BusCall.pinctrl_apply x ∷ l) ≡ block l
  pub interrupts :
      (l : List BusCall) (x : Trigger) → block (BusCall.interrupt_configure x ∷ l) ≡ block l
  pub stores :
      (l : List BusCall) (w n : ℕ) (bytes : List ℕ)
      → w / 2 ^ 31 ≡ 1
      → size_of w ≤ n
      → n ≤ length bytes
      → block
          (transceive (some (take (n + 4) (word_bytes w ++ bytes))) (n + 4) 0 ∷ l)
          (fn_of w)
          (addr_of w)
          (size_of w)
        ≡ take (size_of w) bytes
  pub answers :
      (l : List BusCall) (w n : ℕ)
      → w / 2 ^ 31 ≡ 0
      → padding p (fn_of w) + size_of w ≤ n
      → let answer : List ℕ = p.received (transceive (some (word_bytes w)) 4 n ∷ l) in
        (length answer ≡ n)
        × (take (size_of w) (drop (padding p (fn_of w)) answer)
            ≡ block l (fn_of w) (addr_of w) (size_of w))

module _ (p : BusPlatform) (chip : BlockChip p) (fn addr len : ℕ) where
  block-unmasked : (l : List BusCall) → chip.block (unmasked l) ≡ chip.block l
  block-unmasked l = chip.interrupts _ _ ∙ (chip.interrupts _ _ ∙ chip.pins _ _)

  block-masked : (l : List BusCall) → chip.block (masked l) ≡ chip.block l
  block-masked l = chip.pins _ _ ∙ chip.interrupts _ _

  at_fields :
      (l : List BusCall) (w : ℕ)
      → fn_of w ≡ fn
      → addr_of w ≡ addr
      → size_of w ≡ len
      → chip.block l fn addr len ≡ chip.block l (fn_of w) (addr_of w) (size_of w)
  at_fields l w f a n =
      ap (λ x. chip.block l x addr len) (sym f)
      ∙ ap (λ x. chip.block l (fn_of w) x len) (sym a)
      ∙ ap (λ x. chip.block l (fn_of w) (addr_of w) x) (sym n)

  checks :
      (s : Bus)
      → 0 < len
      → len ≤ 0x7f8
      → len ≤ p.max_block_size
      → check_length p fn len s ≡ some (align4 len, s)
  unfolding check_length
  checks s some_bytes small fits =
      let aligned = align4_lem len (omega arith) in
      let most : align4 len ≤ 0x7f8 = omega (arith, aligned) in ground (arith, aligned.1, most)

  -- The chip holds `bytes` at the address.
  abbrev Held : Bus → List ℕ → Type 0
  Held t bytes = chip.block t.log fn addr len ≡ bytes

  write_bytes-Held :
      (bytes : List ℕ) (s : Bus)
      → fn < 4
      → addr < 2 ^ 17
      → (fn == p.wlan_function) ≡ false
      → 0 < len
      → len ≤ 0x7f8
      → len ≤ p.max_block_size
      → len ≤ length bytes
      → buf_offset p + align4 len ≤ length s.frame
      → (t : Bus) × (write_bytes p fn addr len (some bytes) s ≡ some (pos 0, t))
        × Held t (take len bytes)
        × (length t.frame ≡ length s.frame)
  write_bytes-Held bytes s hf ha other some_bytes small fits whole room =
      let f : Fields true fn addr len = Fields-make_cmd true fn addr len hf ha (omega arith) in
      let w : ℕ = make_cmd true true fn addr len in
      let aligned = align4_lem len (omega arith) in
      let l : List BusCall = block_sent p s fn addr len (align4 len) bytes in
      let payload : List ℕ = take len bytes in
      let measured : length payload ≡ len = omega (arith, length-take len bytes) in
      let frame : List ℕ = framed s.frame payload (p.read_pad / 4 * 4) w in
      let t : Bus = record s { frame = frame; log = unmasked l } in
      let rest : List ℕ = stale s.frame payload (p.read_pad / 4 * 4) w in
      (
        t,
        write_bytes-send_frame p s fn addr len (some bytes) other (checks s some_bytes small fits)
            ∙ send_frame_lem p s fn addr len (align4 len) bytes whole (aligned.1) room
            ∙ ap (λ rv. some (rv, t)) (chip.succeeds l),
        ap (λ m. m fn addr len) (block-unmasked l)
            ∙ (at_fields l w f.function f.address f.room
                ∙ (chip.stores (masked s.log) w (align4 len) (payload ++ rest) f.direction
                      (omega (arith, f.room, aligned.1))
                      (omega (
                        arith,
                        measured,
                        room,
                        length-append payload rest,
                        length-drop (p.read_pad / 4 * 4 + 4 + length payload) s.frame,
                      ))
                    ∙ (ap (λ n. take n (payload ++ rest)) (f.room ∙ sym measured)
                        ∙ take-append payload rest))),
        length-framed s.frame payload (p.read_pad / 4 * 4) w
            (omega (arith, room, measured, aligned.1)),
      )

  read_bytes-Held :
      (bytes : List ℕ) (t : Bus)
      → fn < 4
      → addr < 2 ^ 17
      → p.read_pad % 4 ≡ 0
      → 0 < len
      → len ≤ 0x7f8
      → len ≤ p.max_block_size
      → buf_offset p + align4 len ≤ length t.frame
      → Held t bytes
      → Returns (λ r u. r ≡ (pos 0, bytes)) (read_bytes p fn addr len t)
  read_bytes-Held bytes t hf ha padded some_bytes small fits room held =
      let f : Fields false fn addr len = Fields-make_cmd false fn addr len hf ha (omega arith) in
      let w : ℕ = make_cmd false true fn addr len in
      let aligned = align4_lem len (omega arith) in
      let l : List BusCall = block_asked p t fn addr len in
      let answer : List ℕ = p.received l in
      let (whole, found) =
        chip.answers (masked t.log) w (expected p t fn addr len) f.direction
          (omega (arith, ap (λ x. padding p x) f.function, f.room, aligned.1)) in
      let same : take len (drop (padding p fn) answer) ≡ bytes =
        ap (λ x. take len (drop (padding p x) answer)) (sym f.function)
        ∙ (ap (λ n. take n (drop (padding p (fn_of w)) answer)) (sym f.room)
            ∙ (found
                ∙ (sym (at_fields (masked t.log) w f.function f.address f.room)
                    ∙ (ap (λ m. m fn addr len) (block-masked t.log) ∙ held)))) in
      Returns-weaken _ _ (read_bytes p fn addr len t)
        (read_bytes_lem p t fn addr len padded (checks t some_bytes small fits) (omega arith) room
          whole)
        (λ r u h. h.0 ∙ rw (chip.succeeds l) (ap (λ x. (pos 0, x)) same))

  -- Over a chip that keeps blocks by the bus protocol and fails no transfer, a block that was
  -- written to a function other than the radio's, below 4, at an address below 2^17, is read back
  -- as it was written. It has 1 to 0x7f8 bytes, no more than the library's limit and the source's
  -- buffer have, and the frame has room for it. The padding is a multiple of 4, as the driver
  -- asserts.
  pub read_bytes-write_bytes :
      (bytes : List ℕ) (s : Bus)
      → fn < 4
      → addr < 2 ^ 17
      → (fn == p.wlan_function) ≡ false
      → p.read_pad % 4 ≡ 0
      → 0 < len
      → len ≤ 0x7f8
      → len ≤ p.max_block_size
      → len ≤ length bytes
      → buf_offset p + align4 len ≤ length s.frame
      → (t : Bus) × (write_bytes p fn addr len (some bytes) s ≡ some (pos 0, t))
        × Returns (λ r u. r ≡ (pos 0, take len bytes)) (read_bytes p fn addr len t)
  read_bytes-write_bytes bytes s hf ha other padded some_bytes small fits whole room =
      let (t, writes, held, same) =
        write_bytes-Held bytes s hf ha other some_bytes small fits whole room in
      (
        t,
        writes,
        read_bytes-Held (take len bytes) t hf ha padded some_bytes small fits
            (omega (arith, room, same)) held,
      )
