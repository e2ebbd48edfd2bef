-- ===== src/Gpio/Ports.antt =====
-- What the port operations do to the pins, and what they return.
use zephyr_cyw43_driver.Prelude.{
  ℕ, zero, suc, ◌+◌, ◌*◌, ◌≤◌, ◌≡◌, arith, refl, sym, Bool, true, false, not, ◌==◌, ◌||◌,
  if◌then◌else◌, List, ◌∷◌, some,
}
use mathlib.Core.Path.{subst}
use zephyr_cyw43_driver.Prelude.Int.{ℤ, pos, neg}
use zephyr_cyw43_driver.Gpio.{GpioCall, gpio_set, gpio_get, gpio_count, GpioPlatform, selected}
use zephyr_cyw43_driver.Gpio.{
  get_pins, port_get_raw, set_masked_pins, port_set_masked_raw, write_pins, port_set_bits_raw,
  port_clear_bits_raw,
}

-- The log once the selected ones of the chip's three pins were set, in ascending order.
abbrev pub set_if : Bool → ℕ → Bool → List GpioCall → List GpioCall
set_if b pin value l = if b then gpio_set pin value ∷ l else l

abbrev pub all_set : ℕ → Bool → List GpioCall → List GpioCall
all_set pins value l =
    set_if (selected pins 2) 2 value
      (set_if (selected pins 1) 1 value (set_if (selected pins 0) 0 value l))

-- Whether one of the `k` pins from `pin` on is selected.
abbrev pub any_selected : ℕ → ℕ → ℕ → Bool
any_selected pins zero pin = false
any_selected pins (suc k) pin = selected pins pin || any_selected pins k (suc pin)

module _ (p : GpioPlatform) where
  -- On a bank with more pins than the chip, `port_set_masked_raw` sets every selected pin of the
  -- chip, in ascending order, to 1 if the value has any bit set and to 0 if not, whatever its own
  -- bit of the value, and then always returns -ENOTSUP.
  pub port_set_masked_raw_lem :
      (mask value k : ℕ) (l : List GpioCall)
      → p.bank_size ≡ suc (suc (suc (suc k)))
      → port_set_masked_raw p mask value l ≡ some (neg p.enotsup, all_set mask (not (value == 0)) l)
  unfolding port_set_masked_raw set_masked_pins
  port_set_masked_raw_lem mask value k l h = ground arith

  write_pins-above :
      (bit : Bool) (k pin pins : ℕ) (ret : ℤ) (l : List GpioCall)
      → gpio_count ≤ pin
      → write_pins p bit k pin pins ret l
        ≡ some (if any_selected pins k pin then neg p.enotsup else ret, l)
  unfolding write_pins
  write_pins-above bit zero pin pins ret l h = refl
  write_pins-above bit (suc k) pin pins ret l h =
      ground (arith, write_pins-above bit k (suc pin) pins ret l)

  -- What the loop over the pins returns: an error if a pin above the chip's is selected, else the
  -- code of the last call, if there was one.
  abbrev pub written : Bool → ℕ → ℕ → List GpioCall → ℤ
  written bit k pins l =
      if any_selected pins k gpio_count
      then neg p.enotsup
      else if any_selected pins gpio_count 0
      then p.ret (all_set pins bit l)
      else pos 0

  write_pins_lem :
      (bit : Bool) (k pins : ℕ) (l : List GpioCall)
      → write_pins p bit (suc (suc (suc k))) 0 pins (pos 0) l
        ≡ some (written bit k pins l, all_set pins bit l)
  unfolding write_pins
  write_pins_lem bit k pins l = ground (
    arith,
    write_pins-above bit k 3 pins (pos 0) l,
    write_pins-above bit k 3 pins (p.ret (all_set pins bit l)) (all_set pins bit l),
  )

  -- On a bank with at least as many pins as the chip, `port_set_bits_raw` and
  -- `port_clear_bits_raw` set the selected pins of the chip to 1 and to 0, and nothing else; they
  -- return -ENOTSUP if a pin of the bank above the chip's is selected, else the code of the last
  -- call, or 0 if there was none.
  pub port_set_bits_raw_lem :
      (pins k : ℕ) (l : List GpioCall)
      → p.bank_size ≡ suc (suc (suc k))
      → (port_set_bits_raw p pins l ≡ some (written true k pins l, all_set pins true l))
        × (port_clear_bits_raw p pins l ≡ some (written false k pins l, all_set pins false l))
  unfolding port_set_bits_raw port_clear_bits_raw
  port_set_bits_raw_lem pins k l h = (
    subst
        (λ n.
          write_pins p true n 0 pins (pos 0) l ≡ some (written true k pins l, all_set pins true l))
        (sym h) (write_pins_lem true k pins l),
    subst
        (λ n.
          write_pins p false n 0 pins (pos 0) l
          ≡ some (written false k pins l, all_set pins false l))
        (sym h) (write_pins_lem false k pins l),
  )

  -- `port_get_raw` reads each pin of the chip once, in ascending order, returns the code of the
  -- last read, and stores a value whose bits are what the reads gave.
  pub port_get_raw_lem :
      (l : List GpioCall)
      → let first : List GpioCall = gpio_get 0 ∷ l in
        let second : List GpioCall = gpio_get 1 ∷ first in
        let third : List GpioCall = gpio_get 2 ∷ second in
        port_get_raw p l
        ≡ some (
          (
            p.ret third,
            (if p.val first then 1 else 0)
                + 2 * (if p.val second then 1 else 0)
                + 4 * (if p.val third then 1 else 0),
          ),
          third,
        )
  unfolding port_get_raw get_pins
  port_get_raw_lem l = ground arith
