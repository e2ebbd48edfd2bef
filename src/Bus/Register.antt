-- ===== src/Bus/Register.antt =====
-- Registers: `_cyw43_read_reg`, `_cyw43_write_reg` and their variants by width, and the two
-- accesses with swapped half-words that are used before the word order is set.
pub mod Access
pub mod Memory
use zephyr_cyw43_driver.Prelude.{
  ℕ, ◌+◌, ◌-◌, ◌*◌, ◌/◌, ◌%◌, ◌^◌, Bool, true, false, not, ◌==◌, ltb, if◌then◌else◌,
}
use zephyr_cyw43_driver.Prelude.{List, [], ◌∷◌, ◌++◌, Option, none, some, drop, replicate}
use zephyr_cyw43_driver.Prelude.Int.{negsuc, ℤ, pos, is_zero, to_u32}
use zephyr_cyw43_driver.Prelude.Fault.{M, ◌>>=◌, ◌>>◌, get, pure, modify, assert, when, fault}
use zephyr_cyw43_driver.Bus.Platform.{BusPlatform}
use zephyr_cyw43_driver.Bus.Word.{make_cmd, swap16x2, word_bytes, word_of}
use zephyr_cyw43_driver.Bus.Transfer.{Bus, spi_transfer}

-- The word at the index `i` of a buffer of words.
abbrev pub word_at : Option (List ℕ) → ℕ → M Bus ℕ
word_at none i = fault
word_at (some bytes) i = pure (word_of (drop (4 * i) bytes))

-- The conversion of a 32-bit word to int.
abbrev pub to_int : ℕ → ℤ
to_int w = if ltb w (2 ^ 31) then pos w else negsuc (2 ^ 32 - 1 - w)

module _ (p : BusPlatform) where
  -- The bytes that the chip inserts in front of its answer.
  abbrev pub padding : ℕ → ℕ
  padding fn = if fn == p.backplane_function then p.read_pad else 0

  -- The length of `buf32`, in words.
  abbrev pub buf_words : ℕ
  buf_words = p.read_pad / 4 + 1 + 1

  -- The index of the answer's word in `buf32`.
  abbrev pub index : ℕ → ℕ
  index fn = if ltb 0 (padding fn) then buf_words - 1 else 1

  -- `buf32` is on the stack; only its first word is set before the transfer.
  unfoldable pub read_reg : ℕ → ℕ → ℕ → M Bus ℕ
  read_reg fn reg size = do
    s ← get
    let cmd = make_cmd false true fn reg ((size + padding fn) % 2 ^ 32)
    (ret, rx) ← spi_transfer p none 4 (some (word_bytes cmd ++ p.stack s.log)) (8 + padding fn)
    elim (is_zero ret) [ false ↦ pure (to_u32 ret) | true ↦ word_at rx (index fn) ]

  -- The results of the narrower reads are converted to int.
  unfoldable pub read_reg_u32 : ℕ → ℕ → M Bus ℕ
  read_reg_u32 fn reg = read_reg fn reg 4

  unfoldable pub read_reg_u16 : ℕ → ℕ → M Bus ℤ
  read_reg_u16 fn reg = do word ← read_reg fn reg 2; pure (to_int word)

  unfoldable pub read_reg_u8 : ℕ → ℕ → M Bus ℤ
  read_reg_u8 fn reg = do word ← read_reg fn reg 1; pure (to_int word)

  unfoldable pub read_reg_u32_swap : ℕ → ℕ → M Bus ℕ
  read_reg_u32_swap fn reg = do
    assert (not (fn == p.backplane_function))
    let buf = word_bytes (swap16x2 (make_cmd false true fn reg 4)) ++ word_bytes 0
    (ret, rx) ← spi_transfer p (some buf) 4 (some buf) 8
    elim (is_zero ret) [
      | false ↦ pure (to_u32 ret)
      | true ↦ (do word ← word_at rx 1; pure (swap16x2 word))
    ]

  unfoldable pub write_reg_u32_swap : ℕ → ℕ → ℕ → M Bus ℤ
  write_reg_u32_swap fn reg val = do
    let buf = word_bytes (swap16x2 (make_cmd true true fn reg 4)) ++ word_bytes (swap16x2 val)
    (ret, rx) ← spi_transfer p (some buf) 8 none 0
    pure ret

  -- The note of the last write to the backplane.
  unfoldable pub note_write : ℕ → ℕ → ℕ → Bus → Bus
  note_write fn cmd val s =
      if fn == p.backplane_function
      then record s {
        last_size = 8;
        last_header = (cmd, val);
        last_backplane_window = s.cur_backplane_window;
      }
      else s

  unfoldable pub write_reg : ℕ → ℕ → ℕ → ℕ → M Bus ℤ
  unfolding note_write
  write_reg fn reg val size = do
    let cmd = make_cmd true true fn reg size
    modify (note_write fn cmd val)
    (ret, rx) ← spi_transfer p (some (word_bytes cmd ++ word_bytes val)) 8 none 0
    pure ret

  unfoldable pub write_reg_u32 : ℕ → ℕ → ℕ → M Bus ℤ
  write_reg_u32 fn reg val = write_reg fn reg val 4

  unfoldable pub write_reg_u16 : ℕ → ℕ → ℕ → M Bus ℤ
  write_reg_u16 fn reg val = write_reg fn reg (val % 2 ^ 16) 2

  unfoldable pub write_reg_u8 : ℕ → ℕ → ℕ → M Bus ℤ
  write_reg_u8 fn reg val = write_reg fn reg val 1
