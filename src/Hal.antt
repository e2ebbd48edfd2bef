-- ===== src/Hal.antt =====
-- The functions that drivers/wifi/zephyr_cyw43/src/cyw43_configport.h gives the cyw43-driver
-- library: its clock and its pins, over Zephyr's clock and GPIO driver.
pub mod Clock
use zephyr_cyw43_driver.Prelude.{
  ℕ, ◌*◌, ◌%◌, ◌^◌, Bool, true, false, ◌==◌, ◌&&◌, ◌||◌, List, ◌∷◌, some,
}
use zephyr_cyw43_driver.Prelude.Int.{ℤ}
use zephyr_cyw43_driver.Prelude.Fault.{M, ◌>>=◌, ◌>>◌, assert}

-- The flags of the GPIO driver that the functions pass.
pub data PinFlag : Type 0 where
  pull_up pull_down : PinFlag

pub data PinCall : Type 0 where
  host_wake_input : PinCall  -- `gpio_pin_configure_dt(host_wake_gpio, GPIO_INPUT)`
  pin_get : (pin : ℕ) → PinCall
  clear_bits set_bits : (mask : ℕ) → PinCall
  pin_configure : (pin mode : ℕ) → PinFlag → PinCall

-- The constants of the GPIO driver, and what its calls return.
pub record PinPlatform : Type 0 where
  pub gpio_input : ℕ
  pub gpio_output : ℕ
  pub ret : List PinCall → ℤ

-- `uptime` is the answer of `k_uptime_get_32`, in milliseconds.
unfoldable pub ticks_us : ℕ → ℕ
ticks_us uptime = 1000 * uptime % 2 ^ 32

unfoldable pub ticks_ms : ℕ → ℕ
ticks_ms uptime = uptime

-- CYW43_HAL_PIN_PULL_NONE, CYW43_HAL_PIN_PULL_UP and CYW43_HAL_PIN_PULL_DOWN
abbrev pub pull_none : ℕ
pull_none = 0

abbrev pub hal_pull_up : ℕ
hal_pull_up = 1

abbrev pub hal_pull_down : ℕ
hal_pull_down = 2

abbrev pub perform : PinCall → M (List PinCall) (Unit {0})
perform c l = some (tt, c ∷ l)

-- `1 << pin`
unfoldable pub pin_low : ℕ → M (List PinCall) (Unit {0})
pin_low pin = perform (clear_bits (2 ^ pin))

unfoldable pub pin_high : ℕ → M (List PinCall) (Unit {0})
pin_high pin = perform (set_bits (2 ^ pin))

-- The flag that goes with a pull.
unfoldable pub flag_of : ℕ → PinFlag
flag_of pull = elim (pull == hal_pull_up) [ true ↦ pull_up | false ↦ pull_down ]

module _ (p : PinPlatform) where
  abbrev pub invoke : PinCall → M (List PinCall) ℤ
  invoke c l = some (p.ret (c ∷ l), c ∷ l)

  unfoldable pub pin_read : ℕ → M (List PinCall) ℤ
  pin_read pin = do perform host_wake_input; invoke (pin_get pin)

  -- A mode has one of two values, and a pull one of three.
  unfoldable pub pin_config : (pin mode pull alt : ℕ) → M (List PinCall) (Unit {0})
  unfolding flag_of
  pin_config pin mode pull alt = do
    assert ((mode == p.gpio_input || mode == p.gpio_output) && alt == 0)
    assert (pull == hal_pull_up || pull == hal_pull_down || pull == pull_none)
    perform (pin_configure pin mode (flag_of pull))
