-- ===== src/Lock/Family.antt =====
-- Families indexed by thread.
use zephyr_cyw43_driver.Prelude.{ℕ, ◌==◌, if◌then◌else◌}

abbrev pub update {ℓ} : {A : Type ℓ} → (ℕ → A) → ℕ → A → ℕ → A
update f i a j = if i == j then a else f j
