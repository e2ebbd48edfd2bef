-- ===== src/Bus/Block/Payload.antt =====
-- What `cyw43_read_bytes` finds in the frame.
use zephyr_cyw43_driver.Prelude.{
  ℕ, suc, ◌+◌, ◌%◌, ◌<◌, ◌≤◌, ◌≡◌, ◌^◌, arith, refl, ap, sym, ◌∙◌, true, false, List, [], ◌++◌,
  some, none, take, drop, length, if◌then◌else◌, length-append, length-drop,
}
use mathlib.Core.Path.{subst}
use zephyr_cyw43_driver.Prelude.Int.{is_zero}
use zephyr_cyw43_driver.Prelude.Fault.{Returns, ◌>>=◌, ◌>>◌}
use zephyr_cyw43_driver.Bus.Platform.{BusPlatform, BusCall}
use zephyr_cyw43_driver.Bus.Word.{make_cmd, align4, word_bytes}
use zephyr_cyw43_driver.Bus.Word.Fields.{align4_lem}
use zephyr_cyw43_driver.Bus.Transfer.{Bus, spi_transfer}
use zephyr_cyw43_driver.Bus.Transfer.Interrupts.{exchanged, unmasked, spi_transfer-receive}
use zephyr_cyw43_driver.Bus.Register.{padding}
use zephyr_cyw43_driver.Bus.Block.{
  check_length, buf_offset, read_offset, put_command, keep_received, read_bytes,
}
use zephyr_cyw43_driver.Bus.Block.Splice.{
  splice, length-splice, drop-splice, write_bytes_at-splice, take-answer,
}

module _ (p : BusPlatform) where
  pub put_command_lem :
      (at cmd : ℕ) (s : Bus)
      → at + 4 ≤ length s.frame
      → put_command p at cmd s ≡ some (tt, record s { frame = splice s.frame at (word_bytes cmd) })
  unfolding put_command
  put_command_lem at cmd s h = ground (arith, write_bytes_at-splice s.frame at (word_bytes cmd))

  keep_received_lem :
      (at : ℕ) (bytes : List ℕ) (s : Bus)
      → at + length bytes ≤ length s.frame
      → keep_received p at (some bytes) s ≡ some (tt, record s { frame = splice s.frame at bytes })
  unfolding keep_received
  keep_received_lem at bytes s h = ground (arith, write_bytes_at-splice s.frame at bytes)

  -- The command and the padding end where `spid_buf` starts.
  pub read_offset_lem :
      (fn : ℕ) → p.read_pad % 4 ≡ 0 → read_offset p fn + 4 + padding p fn ≡ buf_offset p
  unfolding read_offset
  read_offset_lem fn aligned = ground arith

  module _ (s : Bus) (fn addr len : ℕ) where
    abbrev cmd : ℕ
    cmd = make_cmd false true fn addr len

    abbrev at : ℕ
    at = read_offset p fn

    -- How much the chip answers.
    abbrev pub expected : ℕ
    expected = align4 len + padding p fn

    -- The log once the block was read on the wire: the command went out, and an answer of the
    -- padding and the aligned length was asked for.
    abbrev pub block_asked : List BusCall
    block_asked = exchanged (some (word_bytes cmd)) 4 expected s.log

    abbrev sent : List ℕ
    sent = splice s.frame at (word_bytes cmd)

    -- The transfer of a read, from the frame with its command.
    read_transfer :
        at + 4 + expected ≤ length s.frame
        → length (p.received block_asked) ≡ expected
        → spi_transfer p none 4
            (some (drop at sent))
            (align4 len + 4 + padding p fn)
            (record s { frame = sent })
          ≡ some (
            (
              p.ret block_asked,
              some (
                  word_bytes cmd
                  ++ p.received block_asked
                  ++ drop (4 + length (p.received block_asked)) (drop at sent)),
            ),
            record s { frame = sent; log = unmasked block_asked },
          )
    read_transfer fits whole =
        let base : List ℕ = drop (at + 4) s.frame in
        let st : Bus = record s { frame = sent } in
        let answer : List ℕ = p.received block_asked in
        let zeroth : at + 0 ≡ at = omega arith in
        let f : drop at sent ≡ word_bytes cmd ++ base =
          ap (λ n. drop n sent) (sym zeroth)
          ∙ drop-splice s.frame at 0 (word_bytes cmd) (omega (arith, fits)) (omega arith) in
        subst
          (λ rx.
            spi_transfer p none 4 (some rx) (align4 len + 4 + padding p fn) st
            ≡ some (
              (p.ret block_asked, some (word_bytes cmd ++ answer ++ drop (4 + length answer) rx)),
              record s { frame = sent; log = unmasked block_asked },
            ))
          (sym f)
          (spi_transfer-receive p st (word_bytes cmd ++ base) 4 expected
            (align4 len + 4 + padding p fn) (omega arith) (omega arith)
            (omega (arith, length-drop (at + 4) s.frame)) whole)

    -- Where the padding is a multiple of 4, as the driver asserts, the length passes the checks,
    -- the frame has room for the answer, and the SPI driver stores as many bytes as it is asked
    -- for, a read of a block always returns the code of its transfer, and if that is 0 the
    -- destination has the answer's bytes behind the padding.
    pub read_bytes_lem :
        p.read_pad % 4 ≡ 0
        → check_length p fn len s ≡ some (align4 len, s)
        → len + 3 < 2 ^ 32
        → buf_offset p + align4 len ≤ length s.frame
        → length (p.received block_asked) ≡ expected
        → let answer : List ℕ = p.received block_asked in
          let payload : List ℕ =
            if is_zero (p.ret block_asked) then take len (drop (padding p fn) answer) else [] in
          Returns
            (λ r t. (r ≡ (p.ret block_asked, payload)) × (t.log ≡ unmasked block_asked))
            (read_bytes p fn addr len s)
    unfolding read_bytes
    read_bytes_lem aligned checks small fits whole =
        let place : at + 4 + padding p fn ≡ buf_offset p = read_offset_lem fn aligned in
        let room : at + 4 ≤ length s.frame = omega (arith, place) in
        let enough : at + 4 + expected ≤ length s.frame = omega (arith, place) in
        let answer : List ℕ = p.received block_asked in
        let rest : List ℕ = drop (4 + length answer) (drop at sent) in
        let bytes : List ℕ = word_bytes cmd ++ answer ++ rest in
        let st : Bus = record s { frame = sent; log = unmasked block_asked } in
        let same : length sent ≡ length s.frame = length-splice s.frame at (word_bytes cmd) room in
        let measured : length bytes ≡ 4 + (length answer + length rest) =
          omega (arith, length-append answer rest) in
        let kept : at + length bytes ≤ length sent = omega (
          arith,
          same,
          measured,
          length-drop (4 + length answer) (drop at sent),
          length-drop at sent,
        ) in
        let start : at + suc (suc (suc (suc (padding p fn)))) ≡ buf_offset p =
          omega (arith, place) in
        let found : take len (drop (buf_offset p) (splice sent at bytes))
            ≡ take len (drop (padding p fn) answer) =
          ap (λ n. take len (drop n (splice sent at bytes))) (sym start)
          ∙ take-answer sent rest at (padding p fn) len cmd answer (omega (arith, same, room))
              (omega (arith, whole, (align4_lem len small).1)) in
        rw
          (
            checks,
            ◌>>=◌,
            put_command_lem at cmd s room,
            ◌>>◌,
            ◌>>=◌,
            read_transfer enough whole,
            keep_received_lem at bytes st kept,
            ◌>>◌,
            ◌>>=◌,
            Returns,
          )
          (ap (λ x. (p.ret block_asked, if is_zero (p.ret block_asked) then x else [])) found, refl)
