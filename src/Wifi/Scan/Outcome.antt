-- ===== src/Wifi/Scan/Outcome.antt =====
-- What `zephyr_cyw43_scan` returns, and when it reports the end of the scan.
use zephyr_cyw43_driver.Prelude.{
  ℕ, zero, suc, ◌+◌, ◌≤◌, ◌≡◌, ◌⊎◌, arith, refl, Bool, true, false, List, ◌∷◌, [], some, none,
  if◌then◌else◌,
}
use zephyr_cyw43_driver.Prelude.{Bool-cases, inl, inr}
use zephyr_cyw43_driver.Prelude.Int.{ℤ, pos, is_zero}
use zephyr_cyw43_driver.Prelude.Fault.{Returns, Returns-bind, Returns-weaken, ◌>>=◌, pure}
use zephyr_cyw43_driver.Wifi.Platform.{
  Platform, Call, wifi_scan_active, wifi_scan, sleep, lock, unlock, scan_cb,
}
use zephyr_cyw43_driver.Wifi.Device.{Driver}
use zephyr_cyw43_driver.Wifi.Scan.{await_scan, call_scan_cb, scan}

-- From the log `l` on, at most `k` polls: all but the last found the scan busy, and were followed
-- by 50 ms of sleep; the last found it finished, unless `k` polls were made.
pub data Awaited (p : Platform) : ℕ → List Call → List Call → Type 0 where
  timed_out : {l : List Call} → Awaited p zero l l
  finished :
      {k : ℕ} {l : List Call}
      → p.active (wifi_scan_active ∷ l) ≡ false
      → Awaited p (suc k) l (wifi_scan_active ∷ l)
  busy :
      {k : ℕ} {l l' : List Call}
      → p.active (wifi_scan_active ∷ l) ≡ true
      → Awaited p k (sleep 50 ∷ wifi_scan_active ∷ l) l'
      → Awaited p (suc k) l l'

-- The device is as it was, and the wait went as described.
abbrev pub Waited : Platform → ℕ → Driver → Unit {0} → Driver → Type 0
Waited p k s _ s' = (s'.dev ≡ s.dev) × Awaited p k s.log s'.log

await_scan-Awaited : (p : Platform) (k : ℕ) (s : Driver) → Returns (Waited p k s) (await_scan p k s)
unfolding await_scan
await_scan-Awaited p zero s = (refl, timed_out)
await_scan-Awaited p (suc k) s =
    let l : List Call = wifi_scan_active ∷ s.log in
    let t : Driver = record s { log = sleep 50 ∷ l } in
    elim (Bool-cases (p.active l)) [
      | inl still ↦
          rw (still, Returns, await_scan)
            (Returns-weaken (Waited p k t) (Waited p (suc k) s) (await_scan p k t)
              (await_scan-Awaited p k t) (λ _ s' w. (w.0, busy still w.1)))
      | inr over ↦ rw (over, Returns, await_scan) (refl, finished over)
    ]

-- A wait of `k` rounds sleeps at most `k` times 50 ms.
abbrev pub sleeps : List Call → ℕ
sleeps [] = 0
sleeps (sleep ms ∷ l) = suc (sleeps l)
sleeps (_ ∷ l) = sleeps l

pub Awaited-sleeps :
    {p : Platform} {k : ℕ} {l l' : List Call} → Awaited p k l l' → sleeps l' ≤ sleeps l + k
Awaited-sleeps timed_out = omega arith
Awaited-sleeps (finished h) = omega arith
Awaited-sleeps (busy h w) = omega (arith, Awaited-sleeps w)

-- The log at which a scan of this kind was asked for.
abbrev pub begun : Bool → List Call → List Call
begun active l = wifi_scan (if active then 0 else 1) ∷ wifi_scan_active ∷ l

-- What a scan leaves when it returns `rv`.
pub record IsScanned (p : Platform) (active : Bool) (cb : ℕ) (s : Driver) (rv : ℤ) (s' : Driver)
    : Type 0 where
  pub same_dev : s'.dev ≡ s.dev
  pub result :
      ((p.active (wifi_scan_active ∷ s.log) ≡ true)
        × (rv ≡ pos 0)
        × (s'.log ≡ wifi_scan_active ∷ s.log))
      ⊎ ((p.active (wifi_scan_active ∷ s.log) ≡ false)
          × (rv ≡ p.ret (begun active s.log))
          × (is_zero rv ≡ false)
          × (s'.log ≡ begun active s.log))
      ⊎ ((p.active (wifi_scan_active ∷ s.log) ≡ false)
          × (rv ≡ p.ret (begun active s.log))
          × (is_zero rv ≡ true)
          × ((l : List Call) × Awaited p 50 (begun active s.log) l
              × (s'.log ≡ unlock ∷ scan_cb cb none ∷ lock ∷ l)))

module _ (p : Platform) (active : Bool) (cb : ℕ) (s : Driver)
    (known : s.dev.scan_cb ≡ some cb) where
  abbrev started : Driver
  started = record s { log = begun active s.log }

  -- The end of a scan that was started.
  call_scan_cb-none :
      (u : Driver)
      → u.dev ≡ s.dev
      → call_scan_cb none u ≡ some (tt, record u { log = unlock ∷ scan_cb cb none ∷ lock ∷ u.log })
  unfolding call_scan_cb
  call_scan_cb-none u e = ground arith

  IsScanned-started :
      (err : ℤ)
      → err ≡ p.ret (begun active s.log)
      → p.active (wifi_scan_active ∷ s.log) ≡ false
      → is_zero err ≡ true
      → Returns
          (IsScanned p active cb s)
          ((await_scan p 50 >>= λ _. call_scan_cb none >>= λ _. pure err) started)
  IsScanned-started err code idle ok =
      Returns-bind (Waited p 50 started) (IsScanned p active cb s) (await_scan p 50) _ started
        (await_scan-Awaited p 50 started)
        λ _ u w.
          rw (call_scan_cb-none u w.0, Returns, ◌>>=◌)
            (record { same_dev = w.0; result = inr (inr (idle, code, ok, (u.log, w.1, refl))) })

  -- With a callback stored `zephyr_cyw43_scan` always returns. If a scan is under way it does no
  -- more and returns 0; if the library refuses the scan it returns the library's code; in both
  -- cases the end of the scan is not reported. Otherwise it polls at most 50 times, 50 ms apart,
  -- until the scan is finished, then reports the end to the callback once, under the lock, and
  -- returns 0.
  pub scan-IsScanned : Returns (IsScanned p active cb s) (scan p active s)
  unfolding scan
  scan-IsScanned = elim (Bool-cases (p.active (wifi_scan_active ∷ s.log))) [
    | inl held ↦
        rw (held, Returns, scan) (record { same_dev = refl; result = inl (held, refl, refl) })
    | inr idle ↦ elim (Bool-cases (is_zero (p.ret (begun active s.log)))) [
      | inl ok ↦
          rw (idle, ok, Returns, scan) (IsScanned-started (p.ret (begun active s.log)) refl idle ok)
      | inr refused ↦
          rw (idle, refused, Returns, scan)
            (record { same_dev = refl; result = inr (inl (idle, refl, refused, refl)) })
    ]
  ]
