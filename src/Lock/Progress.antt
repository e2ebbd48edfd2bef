-- ===== src/Lock/Progress.antt =====
-- The mutex is free whenever no thread is between the two calls of the kernel.
use zephyr_cyw43_driver.Prelude.{
  ℕ, zero, suc, ◌≡◌, ◌≢◌, arith, Bool, true, false, ◌==◌, ==_iff, Bool-cases, Option-cases, inl,
  inr, some, none,
}
use zephyr_cyw43_driver.Lock.{Mutex, Fields, Pc, Move, System, step, Reach, begin, later}
use zephyr_cyw43_driver.Lock.Invariant.{IsMutex, Local, Reach-Inv}

-- The points behind the return of `k_mutex_unlock` and in front of that of `k_mutex_lock`.
abbrev pub is_out : Pc → Bool
is_out (Pc.running zero) = true
is_out (Pc.waiting n) = true
is_out _ = false

module _ (k : Mutex) (ok : IsMutex k) where
  Local-is_out :
      (i : ℕ) (m : Fields k) (c : Pc)
      → Local k i m c
      → is_out c ≡ true
      → (d : ℕ) → k.holder m.mutex ≢ some (i, d)
  Local-is_out i m (Pc.running zero) h out = h.1
  Local-is_out i m (Pc.waiting n) h out = h.1.1
  Local-is_out i m (Pc.running (suc n)) h out = absurd (ground arith)
  Local-is_out i m (Pc.locked n) h out = absurd (ground arith)
  Local-is_out i m (Pc.owned n) h out = absurd (ground arith)
  Local-is_out i m (Pc.nesting n) h out = absurd (ground arith)
  Local-is_out i m (Pc.raising n d) h out = absurd (ground arith)
  Local-is_out i m (Pc.lowering n d) h out = absurd (ground arith)
  Local-is_out i m (Pc.clearing n) h out = absurd (ground arith)
  Local-is_out i m (Pc.releasing n) h out = absurd (ground arith)

  -- No thread has the address 0.
  abbrev Named : Fields k → Type 0
  Named m = (d : ℕ) → k.holder m.mutex ≢ some (0, d)

  Named-Move :
      (i : ℕ) {m m' : Fields k} {c c' : Pc}
      → i ≢ 0
      → Local k i m c
      → Move k i m c m' c'
      → Named m
      → Named m'
  Named-Move i nz h (Move.find_other ne) named = named
  Named-Move i nz h (Move.find_self lt e) named = named
  Named-Move i {m} nz h (Move.take_mutex {x = x} l) named = elim (ok.lock_lem i m.mutex x l) [
    | inl (free, taken) ↦ λ d e. ground arith
    | inr (n, held, deeper) ↦ λ d e. ground arith
  ]
  Named-Move i nz h Move.set_owner named = named
  Named-Move i nz h Move.set_depth named = named
  Named-Move i nz h Move.read_depth named = named
  Named-Move i nz h Move.raise_depth named = named
  Named-Move i nz h Move.unlock named = named
  Named-Move i nz h (Move.lower_depth ne) named = named
  Named-Move i nz h (Move.clear_depth e) named = named
  Named-Move i nz h Move.reset_owner named = named
  Named-Move i {m} nz h (Move.release_mutex {x = x} u) named =
      let freed : k.holder x ≡ none = ok.unlock_lem i m.mutex x u (h.1) in λ d e. ground arith

  Reach-Named : {s : System k} → Reach k s → Named s.fields
  Reach-Named begin = λ d e. ground (arith, ok.new_free)
  Reach-Named (later {s} r (step i nz mv)) =
      Named-Move i nz (Reach-Inv k ok r i nz) mv (Reach-Named r)

  -- Whatever the interleaving, whenever every thread either has undone all its calls of lock and
  -- is in neither function, or is about to call `k_mutex_lock`, the kernel's mutex is free: no
  -- thread waits for a mutex that nobody is going to release.
  pub Reach-free :
      {s : System k}
      → Reach k s
      → ((i : ℕ) → i ≢ 0 → is_out (s.pc i) ≡ true)
      → k.holder s.fields.mutex ≡ none
  Reach-free {s} r out = elim (Option-cases (k.holder s.fields.mutex)) [
    | inl free ↦ free
    | inr ((i, d), held) ↦ elim (Bool-cases (i == 0)) [
      | inl nobody ↦
          let e : i ≡ 0 = (==_iff i 0).0 nobody in
          absurd (Reach-Named r d (ground (arith, held, e)))
      | inr somebody ↦
          let nz : i ≢ 0 = ground arith in
          absurd (Local-is_out i s.fields (s.pc i) (Reach-Inv k ok r i nz) (out i nz) d held)
    ]
  ]
