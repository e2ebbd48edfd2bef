-- ===== src/Lock/Invariant.antt =====
-- What every step of every thread keeps: the fields fit the points where the threads stand.
use zephyr_cyw43_driver.Prelude.{
  ℕ, zero, suc, ◌^◌, ◌<◌, ◌≡◌, ◌≢◌, ◌⊎◌, inl, inr, arith, refl, sym, ◌==◌, ==_iff, Bool-cases, none,
  some,
}
use zephyr_cyw43_driver.Prelude.Int.{pos}
use mathlib.Core.Path.{subst}
use zephyr_cyw43_driver.Lock.{
  Mutex, Fields, Pc, Move, System, Step, step, start, Reach, begin, later,
}

-- What the kernel documents of `k_mutex`: a new one is free; `k_mutex_lock` returns when the mutex
-- was free, or to the thread that has it already, one deeper; `k_mutex_unlock` by a thread that
-- has it once frees it.
pub record IsMutex (k : Mutex) : Type 0 where
  pub new_free : k.holder k.new ≡ none
  pub lock_lem :
      (i : ℕ) (x y : k.State)
      → k.Locks i x y
      → ((k.holder x ≡ none) × (k.holder y ≡ some (i, 1)))
        ⊎ ((d : ℕ) × (k.holder x ≡ some (i, d)) × (k.holder y ≡ some (i, suc d)))
  pub unlock_lem :
      (i : ℕ) (x y : k.State) → k.Unlocks i x y → k.holder x ≡ some (i, 1) → k.holder y ≡ none

module _ (k : Mutex) where
  abbrev pub Has : ℕ → Fields k → Type 0
  Has i m = k.holder m.mutex ≡ some (i, 1)

  -- The thread has no part in the lock.
  abbrev pub Out : ℕ → Fields k → Type 0
  Out i m = (m.mutex_owner ≢ pos i) × ((d : ℕ) → k.holder m.mutex ≢ some (i, d))

  -- The thread holds the lock `n` deep.
  abbrev pub In : ℕ → ℕ → Fields k → Type 0
  In i n m = Has i m × (m.mutex_owner ≡ pos i) × (m.mutex_depth ≡ n) × (0 < n) × (n < 2 ^ 32)

  -- What holds of the fields while the thread `i` stands at a point.
  abbrev pub Local : ℕ → Fields k → Pc → Type 0
  Local i m (Pc.running zero) = Out i m
  Local i m (Pc.running (suc n)) = In i (suc n) m
  Local i m (Pc.waiting n) = (n ≡ 0) × Out i m
  Local i m (Pc.locked n) = (n ≡ 0) × Has i m
  Local i m (Pc.owned n) = (n ≡ 0) × Has i m × (m.mutex_owner ≡ pos i)
  Local i m (Pc.nesting n) = In i n m × (suc n < 2 ^ 32)
  Local i m (Pc.raising n d) = In i n m × (suc n < 2 ^ 32) × (d ≡ n)
  Local i m (Pc.lowering n d) = In i n m × (d ≡ n)
  Local i m (Pc.clearing n) = (n ≡ 0) × Has i m
  Local i m (Pc.releasing n) = (n ≡ 0) × Has i m × (m.mutex_owner ≢ pos i)

  module _ (ok : IsMutex k) (i : ℕ) where
    -- The thread's own step.
    Local-Move :
        {m m' : Fields k} {c c' : Pc} → i ≢ 0 → Local i m c → Move k i m c m' c' → Local i m' c'
    Local-Move nz h (Move.find_other {n = zero} ne) = ground arith
    Local-Move nz h (Move.find_other {n = suc n} ne) = ground arith
    Local-Move nz h (Move.find_self {n = zero} lt e) = ground arith
    Local-Move nz h (Move.find_self {n = suc n} lt e) = ground arith
    Local-Move {m} nz h (Move.take_mutex {x = x} l) = elim (ok.lock_lem i m.mutex x l) [
      | inl (free, taken) ↦ (h.0, taken)
      | inr (d, held, deeper) ↦ absurd (h.1.1 d held)
    ]
    Local-Move nz h Move.set_owner = ground arith
    Local-Move nz h (Move.set_depth {n = n}) = ground arith
    Local-Move nz h Move.read_depth = ground arith
    Local-Move nz h Move.raise_depth = ground arith
    Local-Move nz h Move.unlock = ground arith
    Local-Move nz h (Move.lower_depth {n = zero} ne) = ground arith
    Local-Move nz h (Move.lower_depth {n = suc n} ne) = ground arith
    Local-Move nz h (Move.clear_depth e) = ground arith
    Local-Move nz h Move.reset_owner = ground arith
    Local-Move {m} nz h (Move.release_mutex {x = x} u) = ground (arith, ok.unlock_lem i m.mutex x u)

    -- A step either leaves the fields alone, or is one of a thread that has the mutex or finds it
    -- free, and gives no other thread a part in the lock.
    abbrev Effect : Fields k → Fields k → Type 0
    Effect m m' =
        (m' ≡ m) ⊎ ((Has i m ⊎ (k.holder m.mutex ≡ none)) × ((j : ℕ) → j ≢ i → Out j m → Out j m'))

    Effect-Move :
        {m m' : Fields k} {c c' : Pc} → i ≢ 0 → Local i m c → Move k i m c m' c' → Effect m m'
    Effect-Move nz h (Move.find_other ne) = inl refl
    Effect-Move nz h (Move.find_self lt e) = inl refl
    Effect-Move {m} nz h (Move.take_mutex {x = x} l) = elim (ok.lock_lem i m.mutex x l) [
      | inl (free, taken) ↦ inr (inr free, λ j ne o. (o.0, λ d e. ground arith))
      | inr (d, held, deeper) ↦ absurd (h.1.1 d held)
    ]
    Effect-Move nz h Move.set_owner = inr (inl (h.1), λ j ne o. (ground arith, o.1))
    Effect-Move nz h Move.set_depth = inr (inl (h.1), λ j ne o. o)
    Effect-Move nz h Move.read_depth = inl refl
    Effect-Move nz h Move.raise_depth = inr (inl (h.0.0), λ j ne o. o)
    Effect-Move nz h Move.unlock = inl refl
    Effect-Move nz h (Move.lower_depth ne') = inr (inl (h.0.0), λ j ne o. o)
    Effect-Move nz h (Move.clear_depth e) = inr (inl (h.0.0), λ j ne o. o)
    Effect-Move nz h Move.reset_owner = inr (inl (h.1), λ j ne o. (ground arith, o.1))
    Effect-Move {m} nz h (Move.release_mutex {x = x} u) =
        let freed : k.holder x ≡ none = ok.unlock_lem i m.mutex x u (h.1) in
        inr (inl (h.1), λ j ne o. (o.0, λ d e. ground arith))

    -- A thread that another one does not exclude has no part in the lock, and that is all its
    -- point asks for.
    Local-cases :
        (m : Fields k) (c : Pc)
        → Local i m c
        → Has i m ⊎ (Out i m × ((m' : Fields k) → Out i m' → Local i m' c))
    Local-cases m (Pc.running zero) h = inr (h, λ m' o. o)
    Local-cases m (Pc.running (suc n)) h = inl (h.0)
    Local-cases m (Pc.waiting n) h = inr (h.1, λ m' o. (h.0, o))
    Local-cases m (Pc.locked n) h = inl (h.1)
    Local-cases m (Pc.owned n) h = inl (h.1)
    Local-cases m (Pc.nesting n) h = inl (h.0.0)
    Local-cases m (Pc.raising n d) h = inl (h.0.0)
    Local-cases m (Pc.lowering n d) h = inl (h.0.0)
    Local-cases m (Pc.clearing n) h = inl (h.1)
    Local-cases m (Pc.releasing n) h = inl (h.1)

  -- The fields fit the point of every thread.
  abbrev pub Inv : System k → Type 0
  Inv s = (i : ℕ) → i ≢ 0 → Local i s.fields (s.pc i)

  module _ (ok : IsMutex k) where
    -- A step of the thread `i`, seen by another thread.
    Local-Effect :
        (i j : ℕ) (m m' : Fields k) (c : Pc) → j ≢ i → Effect ok i m m' → Local j m c → Local j m' c
    Local-Effect i j m m' c ne (inl e) h = subst (λ x. Local j x c) (sym e) h
    Local-Effect i j m m' c ne (inr (free, keeps)) h = elim (Local-cases ok j m c h) [
      | inl has ↦ absurd (ground arith)
      | inr (out, fits) ↦ fits m' (keeps j ne out)
    ]

    pub Inv-start : Inv (start k)
    Inv-start i nz = (ground arith, λ d e. ground (arith, ok.new_free))

    pub Step-Inv : {s t : System k} → Inv s → Step k s t → Inv t
    Step-Inv {s} inv (step i {m} {c} nz mv) j nzj = elim (Bool-cases (i == j)) [
      | inl same ↦
          let e : i ≡ j = (==_iff i j).0 same in
          rw (same) (subst (λ x. Local x m c) e (Local-Move ok i nz (inv i nz) mv))
      | inr other ↦ rw (other) (
          Local-Effect i j s.fields m (s.pc j) (ground arith) (Effect-Move ok i nz (inv i nz) mv)
            (inv j nzj))
    ]

    pub Reach-Inv : {s : System k} → Reach k s → Inv s
    Reach-Inv begin = Inv-start
    Reach-Inv (later r st) = Step-Inv (Reach-Inv r) st
