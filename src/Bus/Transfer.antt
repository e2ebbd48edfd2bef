-- ===== src/Bus/Transfer.antt =====
-- The state of the bus, `cyw43_spi_init`, `cyw43_spi_irq_enable` and `cyw43_spi_transfer`.
pub mod Interrupts
use mathlib.Core.Option
use zephyr_cyw43_driver.Prelude.{ℕ, ◌+◌, ◌-◌, Bool, true, false, not, ◌&&◌, ltb, leb, if◌then◌else◌}
use zephyr_cyw43_driver.Prelude.{List, ◌∷◌, ◌++◌, Option, none, some, take, drop, length}
use zephyr_cyw43_driver.Prelude.Int.{ℤ, pos, negsuc, is_zero, negate}
use zephyr_cyw43_driver.Prelude.Fault.{M, ◌>>=◌, ◌>>◌, pure, get, modify, assert}
use zephyr_cyw43_driver.Bus.Platform.{
  BusPlatform, BusCall, pinctrl_apply, interrupt_configure, sleep,
}
use zephyr_cyw43_driver.Bus.Platform.{PinState, Trigger, host_wake, default_state, transceive}
use zephyr_cyw43_driver.Bus.Platform.{edge_falling, level_high, disabled, select_low, spi_ready}
use zephyr_cyw43_driver.Bus.Platform.{power_port_ready, power_configure, power_set}

-- `cyw43_int_t`, the fields that the bus uses. `frame` is `spi_header` with `spid_buf` behind it:
-- the two are adjacent, and every transfer of a block runs across both.
pub record Bus : Type 0 where
  pub bus_data : Bool  -- not null
  pub last_size : ℕ
  pub last_header : ℕ × ℕ
  pub cur_backplane_window : ℕ
  pub last_backplane_window : ℕ
  pub frame : List ℕ
  pub log : List BusCall

abbrev pub perform : BusCall → M Bus (Unit {0})
perform c s = some (tt, record s { log = c ∷ s.log })

unfoldable pub irq_enable : Bool → M Bus (Unit {0})
irq_enable true = do
  perform (pinctrl_apply host_wake)
  perform (interrupt_configure edge_falling)
  perform (interrupt_configure level_high)
irq_enable false = do perform (interrupt_configure disabled); perform (pinctrl_apply default_state)

-- `rx[at .. at + length bytes) = bytes`; none if that runs past the buffer.
abbrev pub write_bytes_at : List ℕ → ℕ → List ℕ → Option (List ℕ)
write_bytes_at rx at bytes =
    if leb (at + length bytes) (length rx)
    then some (take at rx ++ bytes ++ drop (at + length bytes) rx)
    else none

-- What `rx_length` becomes.
abbrev pub rest_length : ℕ → ℕ → ℕ
rest_length tx_length rx_length = if leb tx_length rx_length then rx_length - tx_length else 0

abbrev pub read_buffer : Option (List ℕ) → ℕ → Option (Option (List ℕ))
read_buffer none n = some none
read_buffer (some bytes) n = if leb n (length bytes) then some (some (take n bytes)) else none

-- What is sent: the caller's bytes, or the first bytes of `rx` where there are none.
abbrev pub tx_source : Option (List ℕ) → ℕ → Option (List ℕ) → ℕ → Option (List ℕ)
tx_source (some tx) tx_length rx rx_length = some tx
tx_source none tx_length rx rx_length =
    if ltb 0 tx_length && leb tx_length rx_length then rx else none

-- The bytes behind the first `tx_length` of `rx`, as they come back.
abbrev pub store_received : Option (List ℕ) → ℕ → List ℕ → Option (Option (List ℕ))
store_received none at bytes = some none
store_received (some rx) at bytes = Option.map some (write_bytes_at rx at bytes)

abbrev pub checked : {A : Type 0} → Option A → M Bus A
checked none s = none
checked (some a) s = some (a, s)

module _ (p : BusPlatform) where
  abbrev pub invoke : BusCall → M Bus ℤ
  invoke c s = some (p.ret (c ∷ s.log), record s { log = c ∷ s.log })

  -- The part of `cyw43_spi_transfer` behind its check. `some` buffers are not null; the value is
  -- the return code and the receive buffer as it is left.
  unfoldable pub exchange : Option (List ℕ) → ℕ → Option (List ℕ) → ℕ → M Bus (ℤ × Option (List ℕ))
  exchange tx tx_length rx rx_length = do
    bytes ← checked (read_buffer (tx_source tx tx_length rx rx_length) tx_length)
    rv ← invoke (transceive bytes tx_length (rest_length tx_length rx_length))
    s ← get
    rx' ← checked (store_received rx tx_length (p.received s.log))
    irq_enable true
    pure (rv, rx')

  unfoldable pub spi_transfer :
      Option (List ℕ) → ℕ → Option (List ℕ) → ℕ → M Bus (ℤ × Option (List ℕ))
  unfolding irq_enable
  spi_transfer none tx_length none rx_length = do
    irq_enable false
    pure (p.fail_fast_check (negate p.einval), none)
  spi_transfer tx tx_length rx rx_length = do irq_enable false; exchange tx tx_length rx rx_length

  -- The last steps of `cyw43_spi_init`.
  unfoldable pub finish_init : M Bus ℤ
  unfolding irq_enable
  finish_init = do
    ready ← invoke spi_ready
    elim (is_zero ready) [
      | true ↦ pure (negsuc 0)
      | false ↦ (do
        irq_enable true
        s ← get
        assert (not s.bus_data)
        modify (λ t. record t { bus_data = true })
        pure (pos 0))
    ]

  -- A step of `cyw43_spi_init` whose nonzero code ends it.
  abbrev pub or_fail : BusCall → M Bus ℤ → M Bus ℤ
  or_fail c k = do ret ← invoke c; elim (is_zero ret) [ true ↦ k | false ↦ pure ret ]

  unfoldable pub spi_init : M Bus ℤ
  unfolding finish_init
  spi_init = do
    perform select_low
    ready ← invoke power_port_ready
    elim (is_zero ready) [
      | true ↦ pure (negsuc 0)
      | false ↦ or_fail power_configure (
          or_fail (power_set false)
            (do perform (sleep 10); or_fail (power_set true) (do perform (sleep 250); finish_init)))
    ]
