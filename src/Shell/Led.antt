-- ===== src/Shell/Led.antt =====
-- What the command for the LED does.
use zephyr_cyw43_driver.Prelude.{
  Bool-cases, inl, inr, ℕ, ◌≡◌, ◌≢◌, ◌⊎◌, ◌==◌, ==_iff, arith, refl, true, false, List, [], ◌∷◌,
  some,
}
use mathlib.Core.Path.{ap₂, subst}
use zephyr_cyw43_driver.Prelude.Int.{ℤ, pos, neg}
use zephyr_cyw43_driver.Prelude.Fault.{Returns}
use zephyr_cyw43_driver.Shell.{
  Shell, ShellCall, shell_print, shell_help, led_on, led_off, same_text, on_text, off_text,
  switch_led, shell_led,
}

same_text_lem : (xs ys : List ℕ) → same_text xs ys ≡ true → xs ≡ ys
same_text_lem [] [] e = refl
same_text_lem [] (y ∷ ys) e = absurd (ground arith)
same_text_lem (x ∷ xs) [] e = absurd (ground arith)
same_text_lem (x ∷ xs) (y ∷ ys) e =
    let heads : (x == y) ≡ true = ground arith in
    let tails : same_text xs ys ≡ true = ground arith in
    ap₂ ◌∷◌ ((==_iff x y).0 heads) (same_text_lem xs ys tails)

same_text_self : (xs : List ℕ) → same_text xs xs ≡ true
same_text_self [] = refl
same_text_self (x ∷ xs) = ground (arith, same_text_self xs, ==_iff x x)

-- What the command returns and leaves, by the text behind its name.
abbrev LedRun : ℕ → List ℕ → List ShellCall → ℤ → Shell → Type 0
LedRun enoexec text l rv t =
    ((text ≡ on_text) × (rv ≡ pos 0) × (t.log ≡ led_on 0 ∷ shell_print ∷ l))
    ⊎ ((text ≡ off_text) × (rv ≡ pos 0) × (t.log ≡ led_off 0 ∷ shell_print ∷ l))
    ⊎ ((text ≢ on_text) × (text ≢ off_text) × (rv ≡ neg enoexec) × (t.log ≡ shell_help ∷ l))

differs : (xs ys : List ℕ) → same_text xs ys ≡ false → xs ≢ ys
differs xs ys e f =
    let same : same_text ys ys ≡ false = subst (λ x. same_text x ys ≡ false) f e in
    ground (arith, same_text_self ys)

-- With a device registered, the command always returns. It returns 0 only behind "on", for which it
-- turns the LED on, and behind "off", for which it turns it off; any other text leaves the LED
-- alone and returns the code of a command that does not run.
shell_led_lem :
    (enoexec dev : ℕ) (name text : List ℕ) (l : List ShellCall)
    → Returns
        (LedRun enoexec text l)
        (shell_led enoexec (name ∷ text ∷ []) (record { dev = some dev; log = l }))
unfolding shell_led switch_led
shell_led_lem enoexec dev name text l = elim (Bool-cases (same_text text on_text)) [
  | inl on ↦ rw (Returns, on) (inl (same_text_lem text on_text on, refl, refl))
  | inr not_on ↦ elim (Bool-cases (same_text text off_text)) [
    | inl off ↦ rw (Returns, not_on, off) (inr (inl (same_text_lem text off_text off, refl, refl)))
    | inr not_off ↦
        rw (Returns, not_on, not_off)
          (inr (inr (differs text on_text not_on, differs text off_text not_off, refl, refl)))
  ]
]
