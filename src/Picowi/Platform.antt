-- ===== src/Picowi/Platform.antt =====
-- What cyw43_bus_picowi_pio_spi.c calls but does not implement: the PicoWi library in
-- picowi_pio/ and the Pico's SDK. An answer is a function of the log of the calls, newest first.
use zephyr_cyw43_driver.Prelude.{ℕ, Bool, List}
use zephyr_cyw43_driver.Bus.Platform.{BusPlatform}

-- The pins, by the names that the source gives them.
pub data Pin : Type 0 where
  sd_on sd_cs sd_clk sd_cmd sd_irq sd_din : Pin
  wl_cs : Pin  -- CYW43_PIN_WL_CS

-- IO_OUT and IO_IN
pub data Direction : Type 0 where
  io_out io_in : Direction

-- IO_NOPULL and IO_PULLUP
pub data Pull : Type 0 where
  no_pull pull_up : Pull

pub data PicowiCall : Type 0 where
  logic_debug_init : PicowiCall
  set_input_hysteresis : Pin → Bool → PicowiCall
  io_set : Pin → Direction → Pull → PicowiCall
  io_level : Pin → ℕ → PicowiCall  -- the function `io_out`
  busy_wait : (us : ℕ) → PicowiCall
  pio_init : PicowiCall
  pio_spi_write : (bytes : List ℕ) → (bits : ℕ) → PicowiCall
  pio_spi_read : (bits : ℕ) → PicowiCall

pub record PicowiPlatform : Type 0 where
  pub constants : BusPlatform  -- the library's constants, which both backends read
  pub answer : List PicowiCall → List ℕ  -- the bytes that the newest `pio_spi_read` stored
  pub uninitialised : List PicowiCall → List ℕ  -- what variables on the stack hold
