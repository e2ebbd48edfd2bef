-- ===== src/Lock/Recursive.antt =====
-- What the nested lock promises: a recursive lock, as an object that its threads enter and leave in
-- one step.
use zephyr_cyw43_driver.Prelude.{
  ℕ, suc, ◌≢◌, List, [], ◌∷◌, Option, none, some, ◌==◌, if◌then◌else◌,
}

-- Free, or held by a thread, nested the given number of times inside the first.
abbrev pub Recursive : Type 0
Recursive = Option (ℕ × ℕ)

-- How deep a thread is inside.
abbrev pub depth : Recursive → ℕ → ℕ
depth none j = 0
depth (some (i, n)) j = if i == j then suc n else 0

pub data Enters : ℕ → Recursive → Recursive → Type 0 where
  acquire : {i : ℕ} → i ≢ 0 → Enters i none (some (i, 0))
  reenter : {i n : ℕ} → Enters i (some (i, n)) (some (i, suc n))

pub data Leaves : ℕ → Recursive → Recursive → Type 0 where
  leave : {i n : ℕ} → Leaves i (some (i, suc n)) (some (i, n))
  release : {i : ℕ} → Leaves i (some (i, 0)) none

-- What a thread has done with the lock.
pub data LockEvent : Type 0 where
  took gave : ℕ → LockEvent

-- The sequences of events, newest first, that a free recursive lock allows, and what it comes to.
pub data Serves : List LockEvent → Recursive → Type 0 where
  free : Serves [] none
  entered :
      {i : ℕ} {es : List LockEvent} {a b : Recursive}
      → Serves es a
      → Enters i a b
      → Serves (took i ∷ es) b
  left :
      {i : ℕ} {es : List LockEvent} {a b : Recursive}
      → Serves es a
      → Leaves i a b
      → Serves (gave i ∷ es) b
