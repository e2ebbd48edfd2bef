-- ===== src/Gpio/Tests.antt =====
-- Runs of the port operations on a bank of thirty pins.
use zephyr_cyw43_driver.Prelude.{◌≡◌, refl, true, false, [], some}
use zephyr_cyw43_driver.Prelude.Int.{pos, neg}
use zephyr_cyw43_driver.Gpio.{GpioPlatform}
use zephyr_cyw43_driver.Gpio.{port_set_masked_raw, port_set_bits_raw, port_clear_bits_raw}
use zephyr_cyw43_driver.Gpio.Ports.{all_set, written, port_set_masked_raw_lem}
use zephyr_cyw43_driver.Gpio.Ports.{port_set_bits_raw_lem}

abbrev bank : GpioPlatform
bank = record { enotsup = 134; bank_size = 30; ret = λ l. pos 0; val = λ l. true }

port_set_masked_raw_lem_example :
    port_set_masked_raw bank 5 4 [] ≡ some (neg bank.enotsup, all_set 5 true [])
port_set_masked_raw_lem_example = port_set_masked_raw_lem bank 5 4 26 [] refl

port_set_bits_raw_lem_example :
    (port_set_bits_raw bank 5 [] ≡ some (written bank true 27 5 [], all_set 5 true []))
    × (port_clear_bits_raw bank 5 [] ≡ some (written bank false 27 5 [], all_set 5 false []))
port_set_bits_raw_lem_example = port_set_bits_raw_lem bank 5 27 [] refl
