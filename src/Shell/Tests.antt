-- ===== src/Shell/Tests.antt =====
-- The command "cyw43 led off".
use zephyr_cyw43_driver.Prelude.{◌≡◌, refl, [], ◌∷◌, some}
use zephyr_cyw43_driver.Prelude.Int.{pos}
use zephyr_cyw43_driver.Shell.{Shell, shell_print, led_off, off_text, shell_led, switch_led}

abbrev ready : Shell
ready = record { dev = some 4; log = [] }

led_off_run :
    shell_led 8 ((0x6c ∷ []) ∷ off_text ∷ []) ready
    ≡ some (pos 0, record ready { log = led_off 0 ∷ shell_print ∷ [] })
unfolding shell_led switch_led
led_off_run = refl
