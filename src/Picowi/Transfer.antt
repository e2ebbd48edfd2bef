-- ===== src/Picowi/Transfer.antt =====
-- The state of this backend, `cyw43_spi_init` and `cyw43_spi_transfer`.
pub mod Pairs
pub mod Receive
use zephyr_cyw43_driver.Prelude.{
  ℕ, zero, suc, ◌+◌, ◌-◌, ◌*◌, Bool, true, false, not, ◌&&◌, ltb, leb, if◌then◌else◌,
}
use zephyr_cyw43_driver.Prelude.{List, ◌∷◌, Option, none, some, take, length, replicate}
use zephyr_cyw43_driver.Prelude.Int.{ℤ, pos, negate}
use zephyr_cyw43_driver.Prelude.Fault.{M, ◌>>=◌, ◌>>◌, pure, fault, get, assert}
use zephyr_cyw43_driver.Bus.Transfer.{write_bytes_at}
use zephyr_cyw43_driver.Picowi.Platform.{
  PicowiPlatform, PicowiCall, Pin, logic_debug_init, set_input_hysteresis, io_set, io_level,
  busy_wait, pio_init, pio_spi_write, pio_spi_read, io_out, io_in, no_pull, pull_up, sd_on, sd_cs,
  sd_clk, sd_cmd, sd_irq, sd_din, wl_cs,
}

-- `cyw43_int_t`, the fields that the backend uses, and its variable
-- `do_ridiculous_byte_reordering`. `frame` is `spi_header` with `spid_buf` behind it.
pub record PicowiBus : Type 0 where
  pub bus_data : Bool  -- not null
  pub byte_reordering : Bool
  pub last_size : ℕ
  pub last_header : ℕ × ℕ
  pub cur_backplane_window : ℕ
  pub last_backplane_window : ℕ
  pub frame : List ℕ
  pub log : List PicowiCall

abbrev pub perform : PicowiCall → M PicowiBus (Unit {0})
perform c s = some (tt, record s { log = c ∷ s.log })

abbrev pub checked : {A : Type 0} → Option A → M PicowiBus A
checked none s = none
checked (some a) s = some (a, s)

unfoldable pub gpio_setup : M PicowiBus (Unit {0})
gpio_setup = do
  perform (io_set sd_on io_out no_pull)
  perform (io_level sd_on 0)
  perform (io_set sd_cs io_out no_pull)
  perform (io_level sd_cs 1)
  perform (io_set sd_clk io_out no_pull)
  perform (io_level sd_clk 0)
  perform (io_set sd_cmd io_out no_pull)
  perform (io_level sd_cmd 0)
  perform (busy_wait 100000)
  perform (io_level sd_on 1)
  perform (busy_wait 50000)
  perform (io_set sd_cmd io_in pull_up)
  perform (io_set sd_irq io_in no_pull)

unfoldable pub spi_init : M PicowiBus ℤ
spi_init = do
  perform logic_debug_init
  perform (set_input_hysteresis sd_din true)
  perform (busy_wait 2000)
  gpio_setup
  perform pio_init
  s ← get
  assert (not s.bus_data)
  pure (pos 0)

module _ (p : PicowiPlatform) where
  -- `pio_spi_read(rx + at, 8 * n)`; a fault if the bytes do not fit behind `rx + at`.
  abbrev pub read_into : List ℕ → ℕ → ℕ → M PicowiBus (List ℕ)
  read_into rx at n = do
    perform (pio_spi_read (n * 8))
    s ← get
    checked (write_bytes_at rx at (p.answer s.log))

  -- The loop that stores two words at a time, the second one first, from `i` on; the value is what
  -- `i` ends as, and the buffer. `fuel` bounds the rounds.
  unfoldable pub read_pairs : (fuel i rx_length : ℕ) → List ℕ → M PicowiBus (ℕ × List ℕ)
  read_pairs zero i rx_length rx = fault
  read_pairs (suc fuel) i rx_length rx = elim (ltb i rx_length) [
    | false ↦ pure (i, rx)
    | true ↦ (do
      later ← read_into rx (i + 4) 4
      both ← read_into later i 4
      read_pairs fuel (i + 8) rx_length both)
  ]

  -- The two branches on `do_ridiculous_byte_reordering`, from the cleared buffer.
  unfoldable pub store_answer : (byte_reordering : Bool) → List ℕ → ℕ → M PicowiBus (List ℕ)
  store_answer false rx rx_length = read_into rx 4 rx_length
  store_answer true rx rx_length = do
    (i, paired) ← read_pairs (suc rx_length) 0 rx_length rx
    elim (ltb rx_length i) [ false ↦ pure paired | true ↦ read_into paired (i - 8) (i - rx_length) ]

  -- What stands under `if (!tx_only)`.
  unfoldable pub receive : List ℕ → ℕ → M PicowiBus (List ℕ)
  receive rx rx_length = do
    cleared ← checked (write_bytes_at rx 0 (replicate rx_length 0))
    s ← get
    store_answer s.byte_reordering cleared rx_length

  -- The bytes on the wire, with the chip selected by one name of the pin and released by another.
  unfoldable pub send : List ℕ → ℕ → M PicowiBus (Unit {0})
  send tx tx_length = do
    perform (io_level wl_cs 0)
    bytes ← checked (if leb tx_length (length tx) then some (take tx_length tx) else none)
    perform (pio_spi_write bytes (tx_length * 8))

  -- `some` buffers are not null. The bytes of `rx` are those up to the end of the object.
  unfoldable pub spi_transfer :
      Option (List ℕ) → ℕ → Option (List ℕ) → ℕ → M PicowiBus (ℤ × Option (List ℕ))
  unfolding send
  spi_transfer none tx_length none rx_length =
      pure (p.constants.fail_fast_check (negate p.constants.einval), none)
  spi_transfer none tx_length (some rx) rx_length = do
    assert (ltb 0 tx_length && ltb tx_length rx_length)
    send rx tx_length
    rx' ← receive rx rx_length
    perform (io_level sd_cs 1)
    pure (pos 0, some rx')
  spi_transfer (some tx) tx_length rx rx_length = do
    send tx tx_length
    perform (io_level sd_cs 1)
    pure (pos 0, rx)
