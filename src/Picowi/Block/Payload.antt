-- ===== src/Picowi/Block/Payload.antt =====
-- What `cyw43_read_bytes` finds in the frame through the PicoWi library.
use zephyr_cyw43_driver.Prelude.{
  ℕ, ◌+◌, ◌*◌, ◌%◌, ◌<◌, ◌≤◌, ◌≡◌, ◌^◌, arith, refl, ap, sym, ◌∙◌, true, false, List, ◌∷◌, ◌++◌,
  some, none, take, drop, length, length-append, length-drop, take-append_of_le,
}
use mathlib.Core.Path.{subst}
use zephyr_cyw43_driver.Prelude.Int.{pos}
use zephyr_cyw43_driver.Prelude.Fault.{Returns, ◌>>=◌, ◌>>◌}
use zephyr_cyw43_driver.Bus.Word.{make_cmd, align4, word_bytes}
use zephyr_cyw43_driver.Bus.Word.Fields.{align4_lem}
use zephyr_cyw43_driver.Bus.Register.{padding}
use zephyr_cyw43_driver.Bus.Block.{buf_offset, read_offset}
use zephyr_cyw43_driver.Bus.Block.Payload.{read_offset_lem}
use zephyr_cyw43_driver.Bus.Block.Splice.{splice, length-splice, drop-splice, write_bytes_at-splice}
use zephyr_cyw43_driver.Picowi.Platform.{PicowiPlatform, PicowiCall, pio_spi_read}
use zephyr_cyw43_driver.Picowi.Transfer.{PicowiBus, spi_transfer}
use zephyr_cyw43_driver.Picowi.Transfer.Receive.{receive-whole, cleared, length-cleared}
use zephyr_cyw43_driver.Picowi.Register.Access.{
  commanded, released, at_answer, spi_transfer-receive,
}
use zephyr_cyw43_driver.Picowi.Block.{check_length, put_command, keep_received, read_bytes}

-- The answer behind the padding, from a frame that holds a cleared word and the answer.
take-stored :
    (frame rx answer : List ℕ) (at pad len : ℕ)
    → at ≤ length frame
    → 4 + length answer ≤ length rx
    → pad + len ≤ length answer
    → take len (drop (at + (4 + pad)) (splice frame at (splice rx 4 answer)))
      ≡ take len (drop pad answer)
take-stored frame rx answer at pad len inside room enough =
    let same : length (splice rx 4 answer) ≡ length rx = length-splice rx 4 answer room in
    let tail : List ℕ = drop (at + length (splice rx 4 answer)) frame in
    let behind : List ℕ = drop (4 + length answer) rx in
    ap (take len) (
      drop-splice frame at (4 + pad) (splice rx 4 answer) inside (omega (arith, same))
      ∙ ap (λ x. x ++ tail) (drop-splice rx 4 pad answer (omega arith) (omega arith)))
    ∙ take-append_of_le len (drop pad answer ++ behind) tail
        (omega (arith, length-append (drop pad answer) behind, length-drop pad answer))
    ∙ take-append_of_le len (drop pad answer) behind (omega (arith, length-drop pad answer))

module _ (p : PicowiPlatform) (s : PicowiBus) (fn addr len : ℕ) where
  put_command_lem :
      (at cmd : ℕ) (t : PicowiBus)
      → at + 4 ≤ length t.frame
      → put_command p at cmd t ≡ some (tt, record t { frame = splice t.frame at (word_bytes cmd) })
  unfolding put_command
  put_command_lem at cmd t h = ground (arith, write_bytes_at-splice t.frame at (word_bytes cmd))

  keep_received_lem :
      (at : ℕ) (bytes : List ℕ) (t : PicowiBus)
      → at + length bytes ≤ length t.frame
      → keep_received p at (some bytes) t ≡ some (tt, record t { frame = splice t.frame at bytes })
  unfolding keep_received
  keep_received_lem at bytes t h = ground (arith, write_bytes_at-splice t.frame at bytes)

  check_length-pos :
      (t : PicowiBus) → check_length p fn len t ≡ some (align4 len, t) → 0 < align4 len
  unfolding check_length
  check_length-pos t h = ground (arith, h)

  abbrev cmd : ℕ
  cmd = make_cmd false true fn addr len

  abbrev at : ℕ
  at = read_offset p.constants fn

  -- How many bytes are read: one word more than the chip has to answer.
  abbrev pub read_length : ℕ
  read_length = align4 len + 4 + padding p.constants fn

  -- The log once the block was read on the wire.
  abbrev pub block_read : List PicowiCall
  block_read = pio_spi_read (read_length * 8) ∷ commanded cmd s.log

  abbrev base : List ℕ
  base = drop (at + 4) s.frame

  abbrev sent : List ℕ
  sent = splice s.frame at (word_bytes cmd)

  abbrev ready : PicowiBus
  ready = record s { byte_reordering = false; frame = sent }

  abbrev stored : List ℕ
  stored = splice (cleared (word_bytes cmd ++ base) read_length) 4 (p.answer block_read)

  length-base : at + 4 ≤ length s.frame → at + (4 + length base) ≡ length s.frame
  length-base h = omega (arith, length-drop (at + 4) s.frame)

  length-stored :
      at + 4 + read_length ≤ length s.frame
      → length (p.answer block_read) ≡ read_length
      → length stored ≡ 4 + length base
  length-stored fits whole =
      let measured : length (cleared (word_bytes cmd ++ base) read_length) ≡ 4 + length base =
        length-cleared (word_bytes cmd ++ base) read_length (omega (arith, length-base))
        ∙ omega arith in
      length-splice (cleared (word_bytes cmd ++ base) read_length) 4 (p.answer block_read)
        (omega (arith, measured, length-base))
      ∙ measured

  -- The transfer, from the frame with its command.
  read_transfer :
      0 < align4 len
      → at + 4 + read_length ≤ length s.frame
      → length (p.answer block_read) ≡ read_length
      → spi_transfer p none 4 (some (drop at sent)) read_length ready
        ≡ some ((pos 0, some stored), record ready { log = released block_read })
  read_transfer some_bytes fits whole =
      let room : at + 4 ≤ length s.frame = omega arith in
      let front : drop at sent ≡ word_bytes cmd ++ base =
        ap (λ n. drop n sent) (omega arith)
        ∙ drop-splice s.frame at 0 (word_bytes cmd) (omega arith) (omega arith) in
      let received =
        receive-whole p (at_answer p ready cmd read_length base) (word_bytes cmd ++ base)
          read_length refl whole (omega (arith, length-base room)) in
      subst
        (λ rx.
          spi_transfer p none 4 (some rx) read_length ready
          ≡ some ((pos 0, some stored), record ready { log = released block_read }))
        (sym front) (spi_transfer-receive p ready cmd read_length base (omega arith) received)

  -- Where the padding is a multiple of 4, the length passes the checks, the frame has room for the
  -- answer and one word, and the library stores as many bytes as it is asked for, a read of a
  -- block always returns 0, leaves the byte reordering off, and the destination has the answer's
  -- bytes behind the padding.
  pub read_bytes-payload :
      p.constants.read_pad % 4 ≡ 0
      → ((t : PicowiBus) → check_length p fn len t ≡ some (align4 len, t))
      → len + 3 < 2 ^ 32
      → buf_offset p.constants + align4 len + 4 ≤ length s.frame
      → length (p.answer block_read) ≡ read_length
      → Returns
          (λ r t.
            (r ≡ (pos 0, take len (drop (padding p.constants fn) (p.answer block_read))))
            × (t.byte_reordering ≡ false)
            × (t.log ≡ released block_read))
          (read_bytes p fn addr len s)
  unfolding read_bytes
  read_bytes-payload aligned checks small fits whole =
      let place : at + 4 + padding p.constants fn ≡ buf_offset p.constants =
        read_offset_lem p.constants fn aligned in
      let some_bytes : 0 < align4 len = check_length-pos s (checks s) in
      let enough : at + 4 + read_length ≤ length s.frame = omega (arith, place) in
      let room : at + 4 ≤ length s.frame = omega arith in
      let measured : length stored ≡ 4 + length base = length-stored enough whole in
      let same : length sent ≡ length s.frame = length-splice s.frame at (word_bytes cmd) room in
      let kept : at + length stored ≤ length sent = omega (arith, measured, same, length-base) in
      let t : PicowiBus = record ready { log = released block_read } in
      let start : at + (4 + padding p.constants fn) ≡ buf_offset p.constants =
        omega (arith, place) in
      let rough : length (cleared (word_bytes cmd ++ base) read_length) ≡ 4 + length base =
        length-cleared (word_bytes cmd ++ base) read_length (omega (arith, length-base))
        ∙ omega arith in
      let found : take len (drop (buf_offset p.constants) (splice sent at stored))
          ≡ take len (drop (padding p.constants fn) (p.answer block_read)) =
        ap (λ n. take len (drop n (splice sent at stored))) (sym start)
        ∙ take-stored sent (cleared (word_bytes cmd ++ base) read_length) (p.answer block_read) at
            (padding p.constants fn) len (omega (arith, same)) (omega (arith, rough, length-base))
            (omega (arith, whole, (align4_lem len small).1)) in
      rw
        (
          ◌>>=◌,
          checks (record s { byte_reordering = false }),
          ◌>>◌,
          put_command_lem at cmd (record s { byte_reordering = false }) room,
          read_transfer some_bytes enough whole,
          keep_received_lem at stored t kept,
          found,
        )
        (refl, refl, refl)
