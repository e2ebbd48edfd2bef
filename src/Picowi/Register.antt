-- ===== src/Picowi/Register.antt =====
-- Registers through the PicoWi library: `_cyw43_read_reg`, `_cyw43_write_reg`, their variants by
-- width, and the two accesses with swapped half-words.
pub mod Access
use zephyr_cyw43_driver.Prelude.{
  ℕ, ◌+◌, ◌*◌, ◌%◌, ◌^◌, true, false, not, ◌==◌, if◌then◌else◌, List, ◌++◌, Option, none, some,
  drop,
}
use zephyr_cyw43_driver.Prelude.Int.{ℤ, is_zero, to_u32}
use zephyr_cyw43_driver.Prelude.Fault.{M, ◌>>=◌, ◌>>◌, get, pure, modify, assert, fault}
use zephyr_cyw43_driver.Bus.Word.{make_cmd, swap16x2, word_bytes, word_of}
use zephyr_cyw43_driver.Bus.Register.{padding, index, to_int}
use zephyr_cyw43_driver.Picowi.Platform.{PicowiPlatform}
use zephyr_cyw43_driver.Picowi.Transfer.{PicowiBus, spi_transfer}

-- The word at the index `i` of a buffer of words.
abbrev pub word_at : Option (List ℕ) → ℕ → M PicowiBus ℕ
word_at none i = fault
word_at (some bytes) i = pure (word_of (drop (4 * i) bytes))

-- The note of the last write to the backplane.
unfoldable pub note_write : ℕ → ℕ → ℕ → ℕ → PicowiBus → PicowiBus
note_write backplane_function fn cmd val s =
    if fn == backplane_function
    then record s {
      last_size = 8;
      last_header = (cmd, val);
      last_backplane_window = s.cur_backplane_window;
    }
    else s

module _ (p : PicowiPlatform) where
  unfoldable pub read_reg_u32_swap : ℕ → ℕ → M PicowiBus ℕ
  read_reg_u32_swap fn reg = do
    assert (not (fn == p.constants.backplane_function))
    let buf = word_bytes (swap16x2 (make_cmd false true fn reg 4)) ++ word_bytes 0
    (ret, rx) ← spi_transfer p none 4 (some buf) 8
    elim (is_zero ret) [
      | false ↦ pure (to_u32 ret)
      | true ↦ (do word ← word_at rx 1; pure (swap16x2 word))
    ]

  -- `buf32` is on the stack, as long as for the other backend; only its first word is set. The
  -- command asks for `size` bytes, with no padding.
  unfoldable pub read_reg : ℕ → ℕ → ℕ → M PicowiBus ℕ
  read_reg fn reg size = do
    s ← get
    let cmd = make_cmd false true fn reg size
    (ret, rx) ←
        spi_transfer p none 4 (some (word_bytes cmd ++ p.uninitialised s.log))
          (8 + padding p.constants fn)
    elim (is_zero ret) [ false ↦ pure (to_u32 ret) | true ↦ word_at rx (index p.constants fn) ]

  -- The results of the narrower reads are converted to int.
  unfoldable pub read_reg_u32 : ℕ → ℕ → M PicowiBus ℕ
  read_reg_u32 fn reg = read_reg fn reg 4

  unfoldable pub read_reg_u16 : ℕ → ℕ → M PicowiBus ℤ
  read_reg_u16 fn reg = do word ← read_reg fn reg 2; pure (to_int word)

  unfoldable pub read_reg_u8 : ℕ → ℕ → M PicowiBus ℤ
  read_reg_u8 fn reg = do word ← read_reg fn reg 1; pure (to_int word)

  unfoldable pub write_reg_u32_swap : ℕ → ℕ → ℕ → M PicowiBus ℤ
  write_reg_u32_swap fn reg val = do
    let buf = word_bytes (swap16x2 (make_cmd true true fn reg 4)) ++ word_bytes (swap16x2 val)
    (ret, rx) ← spi_transfer p (some buf) 8 none 0
    pure ret

  unfoldable pub write_reg : ℕ → ℕ → ℕ → ℕ → M PicowiBus ℤ
  unfolding note_write
  write_reg fn reg val size = do
    let cmd = make_cmd true true fn reg size
    modify (note_write p.constants.backplane_function fn cmd val)
    (ret, rx) ← spi_transfer p (some (word_bytes cmd ++ word_bytes val)) 8 none 0
    pure ret

  unfoldable pub write_reg_u32 : ℕ → ℕ → ℕ → M PicowiBus ℤ
  write_reg_u32 fn reg val = write_reg fn reg val 4

  unfoldable pub write_reg_u16 : ℕ → ℕ → ℕ → M PicowiBus ℤ
  write_reg_u16 fn reg val = write_reg fn reg (val % 2 ^ 16) 2

  unfoldable pub write_reg_u8 : ℕ → ℕ → ℕ → M PicowiBus ℤ
  write_reg_u8 fn reg val = write_reg fn reg val 1
