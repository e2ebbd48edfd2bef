-- ===== src/Shell.antt =====
-- The commands of drivers/wifi/zephyr_cyw43/src/zephyr_cyw43_shell.c.
pub mod Led
mod Tests
use zephyr_cyw43_driver.Prelude.{
  ℕ, ◌==◌, Bool, true, false, List, [], ◌∷◌, Option, none, some, length, ◌&&◌,
}
use zephyr_cyw43_driver.Prelude.Int.{ℤ, pos, neg}
use zephyr_cyw43_driver.Prelude.Fault.{M, ◌>>=◌, ◌>>◌, pure, get, modify}

-- `shell_print` and `shell_help` only print. `led_on` and `led_off` are Zephyr's, which call the
-- driver of zephyr_cyw43_led_drv.c.
pub data ShellCall : Type 0 where
  shell_print shell_help : ShellCall
  led_on led_off : (led : ℕ) → ShellCall
  lock unlock : ShellCall

-- The registered device, by its address, and the log of the calls, newest first.
pub record Shell : Type 0 where
  pub dev : Option ℕ
  pub log : List ShellCall

abbrev pub perform : ShellCall → M Shell (Unit {0})
perform c s = some (tt, record s { log = c ∷ s.log })

-- Only one instance is supported.
unfoldable pub shell_register : ℕ → M Shell (Unit {0})
shell_register dev = do
  s ← get
  elim s.dev [ some old ↦ pure tt | none ↦ modify (λ t. record t { dev = some dev }) ]

-- `!strcmp(a, b)`, of texts without their terminators
abbrev pub same_text : List ℕ → List ℕ → Bool
same_text [] [] = true
same_text [] (y ∷ ys) = false
same_text (x ∷ xs) [] = false
same_text (x ∷ xs) (y ∷ ys) = x == y && same_text xs ys

abbrev pub on_text : List ℕ
on_text = 0x6f ∷ 0x6e ∷ []

abbrev pub off_text : List ℕ
off_text = 0x6f ∷ 0x66 ∷ 0x66 ∷ []

module _ (enoexec : ℕ) where
  -- The branches on the second argument.
  unfoldable pub switch_led : List ℕ → M Shell ℤ
  switch_led text = elim (same_text text on_text) [
    | true ↦ (do perform shell_print; perform (led_on 0); pure (pos 0))
    | false ↦ (elim (same_text text off_text) [
      | true ↦ (do perform shell_print; perform (led_off 0); pure (pos 0))
      | false ↦ (do perform shell_help; pure (neg enoexec))
    ])
  ]

  -- `argc` counts the command's own name, the first of `argv`.
  unfoldable pub shell_led : List (List ℕ) → M Shell ℤ
  unfolding switch_led
  shell_led argv = do
    s ← get
    elim s.dev [
      | none ↦ (do perform shell_print; pure (neg enoexec))
      | some dev ↦ (elim argv as (λ x. M Shell ℤ) [
        | name ∷ text ∷ [] ↦ switch_led text
        | _ ↦ (do perform shell_help; pure (neg enoexec))
      ])
    ]

  unfoldable pub shell_reset : List (List ℕ) → M Shell ℤ
  shell_reset argv = do
    s ← get
    elim s.dev [
      | none ↦ (do perform shell_print; pure (neg enoexec))
      | some dev ↦ (elim (length argv == 1) [
        | false ↦ (do perform shell_help; pure (neg enoexec))
        | true ↦ (do perform lock; perform shell_print; perform unlock; pure (pos 0))
      ])
    ]
