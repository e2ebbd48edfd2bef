-- ===== src/Bus/Tests/Transfers.antt =====
-- Runs of transfers, registers, blocks and of the words they are made of.
use zephyr_cyw43_driver.Prelude.{
  ℕ, ◌/◌, ◌%◌, ◌^◌, ◌<◌, ◌≡◌, ◌≢◌, ◌⊎◌, arith, refl, true, false, List, [], ◌∷◌, Option, some, none,
}
use zephyr_cyw43_driver.Prelude.Int.{ℤ, negate}
use zephyr_cyw43_driver.Bus.Platform.{BusCall, default_state, disabled}
use zephyr_cyw43_driver.Bus.Word.{as_int, make_cmd, align4}
use zephyr_cyw43_driver.Bus.Word.Fields.{make_cmd_fields}
use zephyr_cyw43_driver.Bus.Transfer.{Bus, irq_enable, spi_transfer}
use zephyr_cyw43_driver.Bus.Transfer.Interrupts.{masked, irq_on, IsQuiet}
use zephyr_cyw43_driver.Bus.Transfer.Interrupts.{spi_transfer-irq}
use zephyr_cyw43_driver.Bus.Register.{read_reg_u32}
use zephyr_cyw43_driver.Bus.Register.Access.{read_reg_lem}
use zephyr_cyw43_driver.Bus.Block.{check_length, write_bytes}
use zephyr_cyw43_driver.Bus.Block.Ready.{Answers, Written, write_bytes-Written}
use zephyr_cyw43_driver.Bus.Tests.Chip.{chip, start}

-- The state that a refused transfer leaves.
abbrev refused : Bus
refused =
    let b : Bus = start in
    record b {
      log = BusCall.pinctrl_apply default_state ∷ BusCall.interrupt_configure disabled ∷ [];
    }

abbrev nowhere : Option (List ℕ)
nowhere = none

spi_transfer-irq_example :
    let r : ℤ × Option (List ℕ) = (chip.fail_fast_check (negate chip.einval), none) in
    (((nowhere ≢ none) ⊎ (nowhere ≢ none))
      × (irq_on refused.log ≡ true)
      × (IsQuiet start.log → IsQuiet refused.log))
    ⊎ ((nowhere ≡ none)
        × (nowhere ≡ none)
        × (refused.log ≡ masked start.log)
        × (irq_on refused.log ≡ false)
        × (IsQuiet start.log → IsQuiet refused.log)
        × (r.0 ≡ chip.fail_fast_check (negate chip.einval)))
unfolding spi_transfer irq_enable
spi_transfer-irq_example =
    spi_transfer-irq chip start nowhere 4 nowhere 8
      {r = (chip.fail_fast_check (negate chip.einval), none)} {t = refused} refl

chip-Answers : Answers chip
unfolding read_reg_u32
chip-Answers s = (_, read_reg_lem chip s 0 8 4 refl refl refl)

write_bytes-Written_example :
    Written chip 0 3
      (some (1 ∷ 2 ∷ 3 ∷ []))
      start
      (write_bytes chip 2 0 3 (some (1 ∷ 2 ∷ 3 ∷ [])) start)
unfolding check_length align4
write_bytes-Written_example =
    write_bytes-Written chip chip-Answers 0 3 (some (1 ∷ 2 ∷ 3 ∷ [])) start refl

make_cmd_fields_example :
    let cmd = make_cmd true true 2 0x1000c 64 in
    (cmd < 2 ^ 32)
    × (cmd / 2 ^ 31 ≡ as_int true)
    × (cmd / 2 ^ 30 % 2 ≡ as_int true)
    × (cmd / 2 ^ 28 % 2 ^ 2 ≡ 2)
    × (cmd / 2 ^ 11 % 2 ^ 17 ≡ 0x1000c % 2 ^ 17)
    × (cmd % 2 ^ 11 ≡ 64)
make_cmd_fields_example = make_cmd_fields true true 2 0x1000c 64 (omega arith) (omega arith)
