-- ===== src/Picowi/Block.antt =====
-- Blocks through the PicoWi library: `cyw43_read_bytes` and `cyw43_write_bytes`.
pub mod Payload
use zephyr_cyw43_driver.Prelude.{
  ℕ, zero, suc, ◌+◌, ◌/◌, ◌*◌, Bool, true, false, not, ◌==◌, ltb, leb, ◌&&◌, ◌||◌, if◌then◌else◌,
  bit_and, List, [], Option, none, some, take, drop, length,
}
use zephyr_cyw43_driver.Prelude.Int.{ℤ, is_zero, negate}
use zephyr_cyw43_driver.Prelude.Fault.{M, ◌>>=◌, ◌>>◌, pure, get, modify, assert, fault}
use zephyr_cyw43_driver.Bus.Word.{make_cmd, align4, word_bytes}
use zephyr_cyw43_driver.Bus.Transfer.{write_bytes_at}
use zephyr_cyw43_driver.Bus.Register.{padding}
use zephyr_cyw43_driver.Bus.Block.{buf_offset, read_offset, ran_out}
use zephyr_cyw43_driver.Picowi.Platform.{PicowiPlatform}
use zephyr_cyw43_driver.Picowi.Transfer.{PicowiBus, spi_transfer, checked}
use zephyr_cyw43_driver.Picowi.Register.{read_reg_u32}

module _ (p : PicowiPlatform) where
  -- The assertions on the length; the value is `aligned_len`.
  unfoldable pub check_length : ℕ → ℕ → M PicowiBus ℕ
  check_length fn len = do
    assert (not (fn == p.constants.backplane_function) || leb len p.constants.max_block_size)
    assert (ltb 0 (align4 len) && leb (align4 len) 0x7f8)
    pure (align4 len)

  -- The command goes to the offset `at` of the frame.
  unfoldable pub put_command : ℕ → ℕ → M PicowiBus (Unit {0})
  put_command at cmd = do
    s ← get
    frame ← checked (write_bytes_at s.frame at (word_bytes cmd))
    modify (λ t. record t { frame = frame })

  -- What the transfer of a read leaves from the command on.
  unfoldable pub keep_received : ℕ → Option (List ℕ) → M PicowiBus (Unit {0})
  keep_received at none = fault
  keep_received at (some bytes) = do
    s ← get
    frame ← checked (write_bytes_at s.frame at bytes)
    modify (λ t. record t { frame = frame })

  -- `cyw43_read_bytes`, into `spid_buf` itself or another buffer: on success the value has the
  -- `len` bytes that the destination then holds.
  unfoldable pub read_bytes : ℕ → ℕ → ℕ → M PicowiBus (ℤ × List ℕ)
  read_bytes fn addr len = do
    modify (λ t. record t { byte_reordering = false })
    aligned_len ← check_length fn len
    put_command (read_offset p.constants fn) (make_cmd false true fn addr len)
    s ← get
    (ret, rx) ←
        spi_transfer p none 4 (some (drop (read_offset p.constants fn) s.frame))
          (aligned_len + 4 + padding p.constants fn)
    keep_received (read_offset p.constants fn) rx
    t ← get
    pure (ret, if is_zero ret then take len (drop (buf_offset p.constants) t.frame) else [])

  -- The loop that waits for the FIFO, with `f2_ready_attempts` at `n`.
  unfoldable pub await_f2 : ℕ → M PicowiBus (Option ℕ)
  await_f2 zero = pure none
  await_f2 (suc n) = do
    status ← read_reg_u32 p p.constants.bus_function p.constants.status_register
    elim (bit_and status p.constants.f2_rx_ready == 0) [ false ↦ pure (some n) | true ↦ await_f2 n ]

  -- What follows the wait: `src` is none where it is `spid_buf` itself.
  unfoldable pub send_frame : ℕ → ℕ → ℕ → ℕ → Option (List ℕ) → M PicowiBus ℤ
  unfolding put_command
  send_frame fn addr len aligned_len src = do
    put_command (p.constants.read_pad / 4 * 4) (make_cmd true true fn addr len)
    s ← get
    frame ← checked (elim src [
      | none ↦ some s.frame
      | some bytes ↦
          if leb len (length bytes)
          then write_bytes_at s.frame (buf_offset p.constants) (take len bytes)
          else none
    ])
    modify (λ t. record t { frame = frame })
    (ret, rx) ←
        spi_transfer p (some (drop (p.constants.read_pad / 4 * 4) frame)) (aligned_len + 4) none 0
    pure ret

  unfoldable pub write_bytes : ℕ → ℕ → ℕ → Option (List ℕ) → M PicowiBus ℤ
  write_bytes fn addr len src = do
    aligned_len ← check_length fn len
    elim (fn == p.constants.wlan_function) [
      | false ↦ send_frame fn addr len aligned_len src
      | true ↦ (do
        left ← await_f2 1000
        elim (ran_out p.constants left) [
          | true ↦ pure (p.constants.fail_fast_check (negate p.constants.eio))
          | false ↦ send_frame fn addr len aligned_len src
        ])
    ]
