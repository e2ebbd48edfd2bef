-- ===== src/Lock/Exclusion.antt =====
-- At most one thread is between a call of lock and its call of unlock.
use zephyr_cyw43_driver.Prelude.{ℕ, zero, suc, ◌<◌, ◌≡◌, ◌≢◌, arith, some}
use mathlib.Core.Path.{subst}
use zephyr_cyw43_driver.Prelude.Int.{pos}
use zephyr_cyw43_driver.Lock.{Mutex, Fields, Pc, System, Reach, depth_of}
use zephyr_cyw43_driver.Lock.Invariant.{IsMutex, Has, Local, Reach-Inv}

module _ (k : Mutex) (ok : IsMutex k) where
  pub Has-Local :
      (i : ℕ) (m : Fields k) (c : Pc)
      → 0 < depth_of c
      → Local k i m c
      → Has k i m × (m.mutex_owner ≡ pos i) × (m.mutex_depth ≡ depth_of c)
  Has-Local i m (Pc.running zero) lt h = absurd (omega arith)
  Has-Local i m (Pc.running (suc n)) lt h = ground arith
  Has-Local i m (Pc.waiting n) lt h = ground arith
  Has-Local i m (Pc.locked n) lt h = ground arith
  Has-Local i m (Pc.owned n) lt h = ground arith
  Has-Local i m (Pc.nesting n) lt h = ground arith
  Has-Local i m (Pc.raising n d) lt h = ground arith
  Has-Local i m (Pc.lowering n d) lt h = ground arith
  Has-Local i m (Pc.clearing n) lt h = ground arith
  Has-Local i m (Pc.releasing n) lt h = ground arith

  -- Whatever the interleaving, two threads that both have a call of lock behind them that they
  -- have not undone are the same thread.
  pub Reach-exclusive :
      {s : System k} (i j : ℕ)
      → Reach k s
      → i ≢ 0
      → j ≢ 0
      → 0 < depth_of (s.pc i)
      → 0 < depth_of (s.pc j)
      → i ≡ j
  Reach-exclusive {s} i j r nzi nzj a b =
      let first = Has-Local i s.fields (s.pc i) a (Reach-Inv k ok r i nzi) in
      let second = Has-Local j s.fields (s.pc j) b (Reach-Inv k ok r j nzj) in
      ground (arith, first, second)

  -- Whatever the interleaving, the depth in the device is the number of calls of lock that the
  -- thread inside has not undone, it is the owner, and it has the kernel's mutex once.
  pub Reach-depth :
      {s : System k} (i : ℕ)
      → Reach k s
      → i ≢ 0
      → 0 < depth_of (s.pc i)
      → (k.holder s.fields.mutex ≡ some (i, 1))
        × (s.fields.mutex_owner ≡ pos i)
        × (s.fields.mutex_depth ≡ depth_of (s.pc i))
  Reach-depth {s} i r nz a = Has-Local i s.fields (s.pc i) a (Reach-Inv k ok r i nz)

  -- Whatever the interleaving, a thread that has undone all its calls of lock, and is in neither
  -- function, is not the owner and has no part in the kernel's mutex.
  Reach-released :
      {s : System k} (i : ℕ)
      → Reach k s
      → i ≢ 0
      → s.pc i ≡ Pc.running 0
      → (s.fields.mutex_owner ≢ pos i) × ((d : ℕ) → k.holder s.fields.mutex ≢ some (i, d))
  Reach-released {s} i r nz e = subst (Local k i s.fields) e (Reach-Inv k ok r i nz)
