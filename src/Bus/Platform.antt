-- ===== src/Bus/Platform.antt =====
-- What cyw43_bus_pio_spi.c calls but does not implement: Zephyr's SPI, GPIO and pin drivers, and
-- the constants of cyw43-driver. As for the Wi-Fi driver, an answer is a function of the log.
use zephyr_cyw43_driver.Prelude.{ℕ, Bool, List, Option}
use zephyr_cyw43_driver.Prelude.Int.{ℤ}

-- The flags of `gpio_pin_interrupt_configure_dt` that the driver passes.
pub data Trigger : Type 0 where
  edge_falling level_high disabled : Trigger

-- The states of `pinctrl_apply_state`.
pub data PinState : Type 0 where
  host_wake default_state : PinState

pub data BusCall : Type 0 where
  pinctrl_apply : PinState → BusCall
  interrupt_configure : Trigger → BusCall
  select_low : BusCall  -- the bus-select pin becomes an inactive output
  power_port_ready : BusCall  -- `device_is_ready`
  power_configure : BusCall  -- the power pin becomes an output
  power_set : Bool → BusCall
  sleep : (ms : ℕ) → BusCall
  spi_ready : BusCall
  transceive : (tx : Option (List ℕ)) → (tx_len rx_len : ℕ) → BusCall  -- `none` for NULL

pub record BusPlatform : Type 0 where
  pub einval : ℤ  -- CYW43_EINVAL
  pub eio : ℤ  -- CYW43_EIO
  pub fail_fast_check : ℤ → ℤ  -- CYW43_FAIL_FAST_CHECK
  pub bus_function : ℕ
  pub backplane_function : ℕ
  pub wlan_function : ℕ
  pub status_register : ℕ  -- SPI_STATUS_REGISTER
  pub f2_rx_ready : ℕ  -- STATUS_F2_RX_READY
  pub read_pad : ℕ  -- CYW43_BACKPLANE_READ_PAD_LEN_BYTES
  pub max_block_size : ℕ  -- CYW43_BUS_MAX_BLOCK_SIZE
  pub ret : List BusCall → ℤ
  pub received : List BusCall → List ℕ  -- the bytes that the newest `transceive` stored
  pub stack : List BusCall → List ℕ  -- what uninitialised variables hold
