-- ===== src/App/Texts.antt =====
-- The texts that app/src/main.c is configured with.
use zephyr_cyw43_driver.Prelude.{
  ℕ, suc, zero, ◌<◌, ◌≡◌, sym, ap, arith, refl, true, List, [], ◌∷◌, Option, none, some, take,
  length,
}
use mathlib.Core.Option
use zephyr_cyw43_driver.Prelude.Text.{strlen, text_of}
use zephyr_cyw43_driver.App.{nonempty}

map_suc-inverse :
    (o : Option ℕ) (n : ℕ) → Option.map suc o ≡ some n → (k : ℕ) × (o ≡ some k) × (n ≡ suc k)
map_suc-inverse none n h = absurd (Option.none-ne-some n h)
map_suc-inverse (some k) n h = (k, refl, sym (Option.some-injective (suc k) n h))

-- A terminated text is shorter than what holds it.
pub strlen-length : (text : List ℕ) (n : ℕ) → strlen text ≡ some n → n < length text
unfolding strlen
strlen-length [] n h = absurd (Option.none-ne-some n h)
strlen-length (zero ∷ text) n h = omega (arith, Option.some-injective 0 n h)
strlen-length (suc c ∷ text) n h =
    let (k, whole, longer) = map_suc-inverse (strlen text) n h in
    omega (arith, strlen-length text k whole, longer)

pub text_of-take :
    (text : List ℕ) (n : ℕ) → strlen text ≡ some n → text_of (take n text) ≡ text_of text
unfolding strlen
text_of-take [] n h = absurd (Option.none-ne-some n h)
text_of-take (zero ∷ text) n h = ground (arith, Option.some-injective 0 n h)
text_of-take (suc c ∷ text) n h =
    let (k, whole, longer) = map_suc-inverse (strlen text) n h in
    rw longer (ap (λ (t : List ℕ). suc c ∷ t) (text_of-take text k whole))

pub nonempty-strlen : (text : List ℕ) (n : ℕ) → strlen text ≡ some n → 0 < n → nonempty text ≡ true
unfolding strlen
nonempty-strlen [] n h some_bytes = absurd (Option.none-ne-some n h)
nonempty-strlen (zero ∷ text) n h some_bytes =
    absurd (omega (arith, Option.some-injective 0 n h, some_bytes))
nonempty-strlen (suc c ∷ text) n h some_bytes = refl
