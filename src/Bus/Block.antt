-- ===== src/Bus/Block.antt =====
-- Blocks: `cyw43_read_bytes` and `cyw43_write_bytes`, through the frame of the library's state.
pub mod Ready
pub mod Splice
pub mod Payload
pub mod Sent
pub mod Memory
use zephyr_cyw43_driver.Prelude.{
  ℕ, zero, suc, ◌+◌, ◌/◌, ◌*◌, Bool, true, false, not, ◌==◌, ltb, leb, ◌&&◌, ◌||◌, if◌then◌else◌,
  bit_and,
}
use zephyr_cyw43_driver.Prelude.{List, [], ◌∷◌, ◌++◌, Option, none, some, take, drop, length}
use zephyr_cyw43_driver.Prelude.Int.{ℤ, pos, is_zero, negate}
use zephyr_cyw43_driver.Prelude.Fault.{M, ◌>>=◌, ◌>>◌, pure, get, modify, assert, fault}
use zephyr_cyw43_driver.Bus.Platform.{BusPlatform}
use zephyr_cyw43_driver.Bus.Word.{make_cmd, align4, word_bytes}
use zephyr_cyw43_driver.Bus.Transfer.{Bus, spi_transfer, write_bytes_at, checked}
use zephyr_cyw43_driver.Bus.Register.{padding, read_reg_u32}

module _ (p : BusPlatform) where
  -- The first two assertions of both functions; the value is `aligned_len`.
  unfoldable pub check_length : ℕ → ℕ → M Bus ℕ
  check_length fn len = do
    assert (not (fn == p.backplane_function) || leb len p.max_block_size)
    assert (ltb 0 (align4 len) && leb (align4 len) 0x7f8)
    pure (align4 len)

  -- The offset of `spid_buf` in the frame, behind `spi_header`.
  abbrev pub buf_offset : ℕ
  buf_offset = p.read_pad / 4 * 4 + 4

  -- The offset of the word of `spi_header` that takes the command of a read.
  unfoldable pub read_offset : ℕ → ℕ
  read_offset fn = if ltb 0 (padding p fn) then 0 else p.read_pad / 4 * 4

  -- The command goes to the offset `at` of the frame.
  unfoldable pub put_command : ℕ → ℕ → M Bus (Unit {0})
  put_command at cmd = do
    s ← get
    frame ← checked (write_bytes_at s.frame at (word_bytes cmd))
    modify (λ t. record t { frame = frame })

  -- What the transfer of a read leaves behind the command.
  unfoldable pub keep_received : ℕ → Option (List ℕ) → M Bus (Unit {0})
  keep_received at none = fault
  keep_received at (some bytes) = do
    s ← get
    frame ← checked (write_bytes_at s.frame at bytes)
    modify (λ t. record t { frame = frame })

  -- `cyw43_read_bytes`, into `spid_buf` itself or another buffer: on success the value has the
  -- `len` bytes that the destination then holds.
  unfoldable pub read_bytes : ℕ → ℕ → ℕ → M Bus (ℤ × List ℕ)
  read_bytes fn addr len = do
    aligned_len ← check_length fn len
    put_command (read_offset fn) (make_cmd false true fn addr len)
    s ← get
    (ret, rx) ←
        spi_transfer p none 4 (some (drop (read_offset fn) s.frame))
          (aligned_len + 4 + padding p fn)
    keep_received (read_offset fn) rx
    t ← get
    pure (ret, if is_zero ret then take len (drop buf_offset t.frame) else [])

  -- The loop that waits for the FIFO, with `f2_ready_attempts` at `n`: the value that the counter
  -- has when the loop is left by `break`, and none where it runs out.
  unfoldable pub await_f2 : ℕ → M Bus (Option ℕ)
  await_f2 zero = pure none
  await_f2 (suc n) = do
    status ← read_reg_u32 p p.bus_function p.status_register
    elim (bit_and status p.f2_rx_ready == 0) [ false ↦ pure (some n) | true ↦ await_f2 n ]

  -- `f2_ready_attempts <= 0`
  abbrev pub ran_out : Option ℕ → Bool
  ran_out none = true
  ran_out (some n) = n == 0

  -- What follows the wait: `src` is none where it is `spid_buf` itself.
  unfoldable pub send_frame : ℕ → ℕ → ℕ → ℕ → Option (List ℕ) → M Bus ℤ
  unfolding put_command
  send_frame fn addr len aligned_len src = do
    put_command (p.read_pad / 4 * 4) (make_cmd true true fn addr len)
    s ← get
    frame ← checked (elim src [
      | none ↦ some s.frame
      | some bytes ↦
          if leb len (length bytes)
          then write_bytes_at s.frame buf_offset (take len bytes)
          else none
    ])
    modify (λ t. record t { frame = frame })
    (ret, rx) ← spi_transfer p (some (drop (p.read_pad / 4 * 4) frame)) (aligned_len + 4) none 0
    pure ret

  unfoldable pub write_bytes : ℕ → ℕ → ℕ → Option (List ℕ) → M Bus ℤ
  write_bytes fn addr len src = do
    aligned_len ← check_length fn len
    elim (fn == p.wlan_function) [
      | false ↦ send_frame fn addr len aligned_len src
      | true ↦ (do
        left ← await_f2 1000
        elim (ran_out left) [
          | true ↦ pure (p.fail_fast_check (negate p.eio))
          | false ↦ send_frame fn addr len aligned_len src
        ])
    ]
