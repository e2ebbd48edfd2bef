-- ===== src/Bus/Register/Access.antt =====
-- What an access of a register sends, and what it returns.
use zephyr_cyw43_driver.Prelude.{
  Bool-cases, inl, inr, suc, ℕ, ◌+◌, ◌*◌, ◌%◌, ◌^◌, ◌≤◌, ◌≡◌, arith, refl, ◌∙◌, ap, true, false,
  List, ◌++◌, none, some, drop, length, ◌==◌, if◌then◌else◌, length-drop, drop-append_of_le,
  get_or-append_of_lt,
}
use zephyr_cyw43_driver.Prelude.Int.{is_zero, to_u32}
use zephyr_cyw43_driver.Prelude.Fault.{◌>>=◌}
use zephyr_cyw43_driver.Bus.Platform.{BusPlatform, BusCall}
use zephyr_cyw43_driver.Bus.Word.{make_cmd, word_bytes, word_of}
use zephyr_cyw43_driver.Bus.Transfer.{Bus, spi_transfer}
use zephyr_cyw43_driver.Bus.Transfer.Interrupts.{
  exchanged, unmasked, spi_transfer-send, spi_transfer-receive,
}
use zephyr_cyw43_driver.Bus.Register.{padding, index, read_reg, write_reg, note_write}

pub word_of-append : (xs ys : List ℕ) → 4 ≤ length xs → word_of (xs ++ ys) ≡ word_of xs
word_of-append xs ys h = omega (
  arith,
  get_or-append_of_lt xs ys 0 0,
  get_or-append_of_lt xs ys 1 0,
  get_or-append_of_lt xs ys 2 0,
  get_or-append_of_lt xs ys 3 0,
)

-- The word behind `k` bytes of padding in an answer of `k + 4` bytes, whatever follows it.
word_of-drop-append :
    (k : ℕ) (xs ys : List ℕ) → length xs ≡ k + 4 → word_of (drop k (xs ++ ys)) ≡ word_of (drop k xs)
word_of-drop-append k xs ys h =
    ap word_of (drop-append_of_le k xs ys (omega arith))
    ∙ word_of-append (drop k xs) ys (omega (arith, length-drop k xs))

-- The word at the index `i` of a buffer that starts with a command and an answer.
answer_word :
    (k i cmd : ℕ) (xs ys : List ℕ)
    → 4 * i ≡ 4 + k
    → length xs ≡ k + 4
    → word_of (drop (4 * i) (word_bytes cmd ++ xs ++ ys)) ≡ word_of (drop k xs)
answer_word k i cmd xs ys e h =
    let four : 4 * i ≡ suc (suc (suc (suc k))) = omega arith in
    ap (λ n. word_of (drop n (word_bytes cmd ++ xs ++ ys))) four ∙ word_of-drop-append k xs ys h

-- The word that a read returns stands behind the command and the padding.
pub index_lem : (p : BusPlatform) (fn : ℕ) → p.read_pad % 4 ≡ 0 → 4 * index p fn ≡ 4 + padding p fn
index_lem p fn aligned = ground arith

module _ (p : BusPlatform) (s : Bus) (fn reg size : ℕ) where
  abbrev pad : ℕ
  pad = if fn == p.backplane_function then p.read_pad else 0

  abbrev command : ℕ
  command = make_cmd false true fn reg ((size + pad) % 2 ^ 32)

  -- The log once the register was read on the wire: the command went out, and an answer of `pad`
  -- bytes and one word was asked for.
  abbrev pub asked : List BusCall
  asked = exchanged (some (word_bytes command)) 4 (4 + pad) s.log

  -- Where the padding is a multiple of 4, as the driver asserts, and the SPI driver stores as many
  -- bytes as it is asked for, a read of a register always returns, stays inside its buffer on the
  -- stack, and returns the word of the answer that stands behind the padding; if the transfer
  -- failed it returns the code, as an unsigned word.
  pub read_reg_lem :
      p.read_pad % 4 ≡ 0
      → length (p.stack s.log) ≡ p.read_pad + 4
      → length (p.received asked) ≡ 4 + pad
      → read_reg p fn reg size s
        ≡ some (
          (if is_zero (p.ret asked)
              then word_of (drop pad (p.received asked))
              else to_u32 (p.ret asked)),
          record s { log = unmasked asked },
        )
  unfolding read_reg
  read_reg_lem aligned stack whole =
      rw (transfer, ◌>>=◌)
        (elim (Bool-cases (is_zero (p.ret asked))) [
          | inl ok ↦
              rw ok
                (rw (answer_word pad (index p fn) command (p.received asked) _ at (omega arith)))
          | inr failed ↦ rw failed refl
        ])
    where
      at : 4 * index p fn ≡ 4 + pad
      at = index_lem p fn aligned

      transfer :
          spi_transfer p none 4 (some (word_bytes command ++ p.stack s.log)) (8 + pad) s
          ≡ some (
            (
              p.ret asked,
              some (
                  word_bytes command
                  ++ p.received asked
                  ++ drop (4 + length (p.received asked)) (word_bytes command ++ p.stack s.log)),
            ),
            record s { log = unmasked asked },
          )
      transfer =
          spi_transfer-receive p s (word_bytes command ++ p.stack s.log) 4 (4 + pad) (8 + pad)
            (omega arith) (omega arith) (ground arith) whole

module _ (p : BusPlatform) (s : Bus) (fn reg val size : ℕ) where
  abbrev pub write_command : List ℕ
  write_command = word_bytes (make_cmd true true fn reg size) ++ word_bytes val

  -- A write of a register always returns the code of its one transfer, which sends the command and
  -- the value; the last write to the backplane is noted, any other leaves the notes alone.
  pub write_reg_lem :
      let l = exchanged (some write_command) 8 0 s.log in
      write_reg p fn reg val size s
      ≡ some (
        p.ret l,
        (let t : Bus = note_write p fn (make_cmd true true fn reg size) val s in
            record t { log = unmasked l }),
      )
  unfolding write_reg
  write_reg_lem = ground (
    arith,
    spi_transfer-send p (note_write p fn (make_cmd true true fn reg size) val s) write_command 8,
  )
