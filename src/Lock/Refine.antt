-- ===== src/Lock/Refine.antt =====
-- The interleaved steps of lock and unlock behave as a recursive lock with single steps.
use zephyr_cyw43_driver.Prelude.{
  ℕ, zero, suc, ◌≡◌, ◌≢◌, ◌⊎◌, inl, inr, arith, refl, ◌==◌, ==_iff, Bool-cases, none, some, List,
  [], ◌∷◌,
}
use zephyr_cyw43_driver.Lock.{
  Mutex, Fields, Pc, Move, System, step, start, Reach, begin, later, depth_of,
}
use zephyr_cyw43_driver.Lock.Invariant.{IsMutex, Has, Local, Inv, Reach-Inv}
use mathlib.Core.Path.{subst, sym}
use zephyr_cyw43_driver.Lock.Family.{update}
use zephyr_cyw43_driver.Lock.Exclusion.{Has-Local}
use zephyr_cyw43_driver.Lock.Recursive.{
  Recursive, depth, acquire, reenter, leave, release, Serves, free, entered, left, LockEvent, took,
  gave,
}

-- The abstract lock says of every thread how many calls of lock it has not undone.
abbrev pub Matches : {k : Mutex} → System k → Recursive → Type 0
Matches s a =
    ((i n : ℕ) → a ≡ some (i, n) → i ≢ 0) × ((j : ℕ) → j ≢ 0 → depth_of (s.pc j) ≡ depth a j)

-- What a move of the thread `i` adds to the events: lock has it inside once the depth is stored, and
-- unlock has it out once the lowered depth is.
abbrev pub noted :
    {k : Mutex} {i : ℕ} {m m' : Fields k} {c c' : Pc}
    → Move k i m c m' c'
    → List LockEvent
    → List LockEvent
noted {i = i} Move.set_depth es = took i ∷ es
noted {i = i} Move.raise_depth es = took i ∷ es
noted {i = i} (Move.lower_depth ne) es = gave i ∷ es
noted {i = i} (Move.clear_depth e) es = gave i ∷ es
noted _ es = es

-- The states that the threads come to, with the events on the way, newest first.
pub data Traced (k : Mutex) : List LockEvent → System k → Type 0 where
  at_start : Traced k [] (start k)
  moved :
      {es : List LockEvent} {s : System k} (i : ℕ) {m : Fields k} {c : Pc}
      → Traced k es s
      → i ≢ 0
      → (mv : Move k i s.fields (s.pc i) m c)
      → Traced k (noted mv es) (record { fields = m; pc = update s.pc i c })

module _ (k : Mutex) where
  -- A step leaves the thread as deep as it was, or is made by a thread that has the mutex and goes
  -- one deeper or comes one out.
  depth-Move :
      (i : ℕ) {m m' : Fields k} {c c' : Pc}
      → Local k i m c
      → (mv : Move k i m c m' c') → (es : List LockEvent)
      → ((noted mv es ≡ es) × (depth_of c' ≡ depth_of c))
        ⊎ (Has k i m
            × (((noted mv es ≡ took i ∷ es) × (depth_of c' ≡ suc (depth_of c)))
                ⊎ ((noted mv es ≡ gave i ∷ es) × (depth_of c ≡ suc (depth_of c')))))
  depth-Move i h (Move.find_other ne) es = inl (refl, refl)
  depth-Move i h (Move.find_self lt e) es = inl (refl, refl)
  depth-Move i h (Move.take_mutex l) es = inl (refl, refl)
  depth-Move i h Move.set_owner es = inl (refl, refl)
  depth-Move i h Move.set_depth es = inr (h.1, inl (refl, refl))
  depth-Move i h Move.read_depth es = inl (refl, refl)
  depth-Move i h Move.raise_depth es = inr (h.0.0, inl (refl, refl))
  depth-Move i h Move.unlock es = inl (refl, refl)
  depth-Move i h (Move.lower_depth ne) es = inr (h.0.0, inr (refl, refl))
  depth-Move i h (Move.clear_depth e) es = inr (h.0.0, inr (refl, refl))
  depth-Move i h Move.reset_owner es = inl (refl, refl)
  depth-Move i h (Move.release_mutex u) es = inl (refl, refl)

  -- The abstract lock is free, or held by the thread that has the mutex.
  Has-Matches :
      (ok : IsMutex k) (s : System k) (i : ℕ) (a : Recursive)
      → i ≢ 0
      → Inv k s
      → Matches s a
      → Has k i s.fields
      → ((a ≡ none) × (depth_of (s.pc i) ≡ 0))
        ⊎ ((n : ℕ) × (a ≡ some (i, n)) × (depth_of (s.pc i) ≡ suc n))
  Has-Matches ok s i none nz inv h has = inl (refl, h.1 i nz)
  Has-Matches ok s i (some (j, n)) nz inv h has =
      let nzj : j ≢ 0 = h.0 j n refl in
      let deep : depth_of (s.pc j) ≡ suc n = ground (arith, h.1 j nzj) in
      let held = Has-Local k ok j s.fields (s.pc j) (omega arith) (inv j nzj) in
      let same : j ≡ i = ground arith in
      inr (n, rw (same) refl, subst (λ x. depth_of (s.pc x) ≡ suc n) same deep)

  -- What a step of the thread `i` makes of the depths.
  Matches-update :
      (s : System k) (m : Fields k) (i : ℕ) (c : Pc) (a : Recursive)
      → ((l n : ℕ) → a ≡ some (l, n) → l ≢ 0)
      → depth_of c ≡ depth a i
      → ((j : ℕ) → j ≢ 0 → j ≢ i → depth_of (s.pc j) ≡ depth a j)
      → Matches {k = k} (record { fields = m; pc = update s.pc i c }) a
  Matches-update s m i c a owner own others = (
    owner,
    λ j nz. elim (Bool-cases (i == j)) [
      | inl e ↦
          let same : i ≡ j = (==_iff i j).0 e in
          rw (e) (subst (λ x. depth_of c ≡ depth a x) same own)
      | inr e ↦ rw (e) (others j nz (ground arith))
    ],
  )

  -- After the events `es` the abstract lock can come to a state that matches `t`.
  abbrev Simulated : List LockEvent → System k → Type 0
  Simulated es t = (b : Recursive) × Serves es b × Matches t b

  -- The thread that has the mutex goes one deeper.
  Enters-Simulated :
      (s : System k) (m : Fields k) (i : ℕ) (c : Pc) (a : Recursive) (es : List LockEvent)
      → i ≢ 0
      → Serves es a
      → Matches s a
      → ((a ≡ none) × (depth_of (s.pc i) ≡ 0))
        ⊎ ((n : ℕ) × (a ≡ some (i, n)) × (depth_of (s.pc i) ≡ suc n))
      → depth_of c ≡ suc (depth_of (s.pc i))
      → Simulated (took i ∷ es) (record { fields = m; pc = update s.pc i c })
  Enters-Simulated s m i c a es nz v h (inl (is_free, zeros)) e = (
    some (i, 0),
    entered v (rw (is_free) (acquire nz)),
    Matches-update s m i c (some (i, 0)) (λ l n x. ground arith) (ground arith)
        (λ j nzj ne. ground (arith, h.1 j nzj)),
  )
  Enters-Simulated s m i c a es nz v h (inr (n, held, deep)) e = (
    some (i, suc n),
    entered v (rw (held) reenter),
    Matches-update s m i c (some (i, suc n)) (λ l k x. ground arith) (ground arith)
        (λ j nzj ne. ground (arith, h.1 j nzj)),
  )

  -- It comes one out.
  Leaves-Simulated :
      (s : System k) (m : Fields k) (i : ℕ) (c : Pc) (a : Recursive) (es : List LockEvent)
      → i ≢ 0
      → Serves es a
      → Matches s a
      → ((a ≡ none) × (depth_of (s.pc i) ≡ 0))
        ⊎ ((n : ℕ) × (a ≡ some (i, n)) × (depth_of (s.pc i) ≡ suc n))
      → depth_of (s.pc i) ≡ suc (depth_of c)
      → Simulated (gave i ∷ es) (record { fields = m; pc = update s.pc i c })
  Leaves-Simulated s m i c a es nz v h (inl (is_free, zeros)) e = absurd (omega arith)
  Leaves-Simulated s m i c a es nz v h (inr (zero, held, deep)) e = (
    none,
    left v (rw (held) release),
    Matches-update s m i c none (λ l k x. ground arith) (ground arith)
        (λ j nzj ne. ground (arith, h.1 j nzj)),
  )
  Leaves-Simulated s m i c a es nz v h (inr (suc n, held, deep)) e = (
    some (i, n),
    left v (rw (held) leave),
    Matches-update s m i c (some (i, n)) (λ l k x. ground arith) (ground arith)
        (λ j nzj ne. ground (arith, h.1 j nzj)),
  )

  -- One move of the code is one step of the abstract lock, or none, as its event says.
  Move-Simulated :
      (ok : IsMutex k) (s : System k) (i : ℕ) {m : Fields k} {c : Pc} (a : Recursive)
      (es : List LockEvent)
      → Inv k s
      → i ≢ 0
      → (mv : Move k i s.fields (s.pc i) m c) → Serves es a
      → Matches s a
      → Simulated (noted mv es) (record { fields = m; pc = update s.pc i c })
  Move-Simulated ok s i {m} {c} a es inv nz mv v h =
      let t : System k = record { fields = m; pc = update s.pc i c } in
      elim (depth-Move i (inv i nz) mv es) [
        | inl (none_noted, e) ↦
            let own : depth_of c ≡ depth a i = ground (arith, h.1 i nz) in
            subst (λ l. Simulated l t) (sym none_noted)
              (a, v, Matches-update s m i c a (h.0) own (λ j nzj ne. h.1 j nzj))
        | inr (has, inl (entry, e)) ↦
            subst (λ l. Simulated l t) (sym entry)
              (Enters-Simulated s m i c a es nz v h (Has-Matches ok s i a nz inv h has) e)
        | inr (has, inr (exit, e)) ↦
            subst (λ l. Simulated l t) (sym exit)
              (Leaves-Simulated s m i c a es nz v h (Has-Matches ok s i a nz inv h has) e)
      ]

  Traced-Reach : {es : List LockEvent} {s : System k} → Traced k es s → Reach k s
  Traced-Reach at_start = begin
  Traced-Reach (moved i r nz mv) = later (Traced-Reach r) (step i nz mv)

  -- Whatever the interleaving of the single accesses, the sequence in which the threads come inside
  -- the lock and out of it is one that a recursive lock allows, which is entered by a thread while
  -- it is free or that thread's own, and left by its holder, in one step each; and it then says of
  -- every thread how many of its calls of lock it has not undone.
  pub Traced-Serves :
      (ok : IsMutex k) {es : List LockEvent} {s : System k}
      → Traced k es s
      → (a : Recursive) × Serves es a × Matches s a
  Traced-Serves ok at_start = (none, free, ((λ i n e. ground arith), λ j nz. refl))
  Traced-Serves ok (moved {es} {s} i r nz mv) =
      let before = Traced-Serves ok r in
      Move-Simulated ok s i (before.0) es (Reach-Inv k ok (Traced-Reach r)) nz mv (before.1)
        (before.2)
