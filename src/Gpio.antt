-- ===== src/Gpio.antt =====
-- The pins of the radio chip: drivers/wifi/zephyr_cyw43/src/zephyr_cyw43_gpio_drv.c and
-- zephyr_cyw43_led_drv.c. The state is the log of the calls of the library, newest first.
pub mod Ports
mod Tests
use zephyr_cyw43_driver.Prelude.{
  ℕ, zero, suc, ◌^◌, Bool, true, false, not, ltb, ◌==◌, if◌then◌else◌, List, ◌∷◌, some, bit_and,
  bit_or,
}
use zephyr_cyw43_driver.Prelude.Int.{ℤ, pos, neg}
use zephyr_cyw43_driver.Prelude.Fault.{M, ◌>>=◌, pure, get}

pub data GpioCall : Type 0 where
  gpio_set : (pin : ℕ) (value : Bool) → GpioCall
  gpio_get : (pin : ℕ) → GpioCall

-- CYW43_WL_GPIO_COUNT
abbrev pub gpio_count : ℕ
gpio_count = 3

-- What the library and the build provide.
pub record GpioPlatform : Type 0 where
  pub enotsup : ℕ
  pub bank_size : ℕ  -- NUM_BANK0_GPIOS
  pub ret : List GpioCall → ℤ
  pub val : List GpioCall → Bool  -- what `val` holds after the newest call

-- `mask & (1 << pin)`, as a condition
abbrev pub selected : ℕ → ℕ → Bool
selected mask pin = not (bit_and mask (2 ^ pin) == 0)

-- The operations that reach no pin: `gpio_rpi_cyw43_configure`, `gpio_rpi_cyw43_port_toggle_bits`,
-- `gpio_rpi_cyw43_pin_interrupt_configure` and `gpio_rpi_cyw43_manage_callback` report success.
unfoldable configure : (pin flags : ℕ) → M (List GpioCall) ℤ
configure pin flags = pure (pos 0)

unfoldable port_toggle_bits : (pins : ℕ) → M (List GpioCall) ℤ
port_toggle_bits pins = pure (pos 0)

unfoldable pin_interrupt_configure : (pin mode trig : ℕ) → M (List GpioCall) ℤ
pin_interrupt_configure pin mode trig = pure (pos 0)

unfoldable manage_callback : (cb : ℕ) → (on : Bool) → M (List GpioCall) ℤ
manage_callback cb on = pure (pos 0)

module _ (p : GpioPlatform) where
  abbrev pub invoke : GpioCall → M (List GpioCall) ℤ
  invoke c l = some (p.ret (c ∷ l), c ∷ l)

  -- The loop over the pins, from `pin` on with `k` to go.
  unfoldable pub get_pins : ℕ → ℕ → ℤ → ℕ → M (List GpioCall) (ℤ × ℕ)
  get_pins zero pin ret value = pure (ret, value)
  get_pins (suc k) pin ret value = do
    code ← invoke (gpio_get pin)
    l ← get
    get_pins k (suc pin) code (if p.val l then bit_or value (2 ^ pin) else value)

  -- The code and the value stored.
  unfoldable pub port_get_raw : M (List GpioCall) (ℤ × ℕ)
  port_get_raw = get_pins gpio_count 0 (pos 0) 0

  -- `cyw43_gpio_set` takes a bool, to which the call converts `value`.
  unfoldable pub set_masked_pins : ℕ → ℕ → ℕ → ℕ → M (List GpioCall) ℤ
  set_masked_pins zero pin mask value = pure (pos 0)
  set_masked_pins (suc k) pin mask value = elim (ltb pin gpio_count) [
    | false ↦ pure (neg p.enotsup)
    | true ↦ (elim (selected mask pin) [
      | false ↦ set_masked_pins k (suc pin) mask value
      | true ↦ (do
        code ← invoke (gpio_set pin (not (value == 0)))
        set_masked_pins k (suc pin) mask value)
    ])
  ]

  unfoldable pub port_set_masked_raw : ℕ → ℕ → M (List GpioCall) ℤ
  port_set_masked_raw mask value = set_masked_pins p.bank_size 0 mask value

  -- The loop of the next two, which set the selected pins to 1 or to 0.
  unfoldable pub write_pins : Bool → ℕ → ℕ → ℕ → ℤ → M (List GpioCall) ℤ
  write_pins bit zero pin pins ret = pure ret
  write_pins bit (suc k) pin pins ret = elim (selected pins pin) [
    | false ↦ write_pins bit k (suc pin) pins ret
    | true ↦ (elim (ltb pin gpio_count) [
      | false ↦ pure (neg p.enotsup)
      | true ↦ (do code ← invoke (gpio_set pin bit); write_pins bit k (suc pin) pins code)
    ])
  ]

  unfoldable pub port_set_bits_raw : ℕ → M (List GpioCall) ℤ
  port_set_bits_raw pins = write_pins true p.bank_size 0 pins (pos 0)

  unfoldable pub port_clear_bits_raw : ℕ → M (List GpioCall) ℤ
  port_clear_bits_raw pins = write_pins false p.bank_size 0 pins (pos 0)

  -- `rpi_cyw43_led_on` and `rpi_cyw43_led_off`
  unfoldable pub led_on : ℕ → M (List GpioCall) ℤ
  led_on led = elim (led == 0) [ true ↦ invoke (gpio_set 0 true) | false ↦ pure (neg p.enotsup) ]

  unfoldable pub led_off : ℕ → M (List GpioCall) ℤ
  led_off led = elim (led == 0) [ true ↦ invoke (gpio_set 0 false) | false ↦ pure (neg p.enotsup) ]
