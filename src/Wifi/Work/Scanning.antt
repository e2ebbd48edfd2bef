-- ===== src/Wifi/Work/Scanning.antt =====
-- A scan from the request to its end, through the work item.
use zephyr_cyw43_driver.Prelude.{ℕ, ◌≡◌, refl, Bool, true, false, some, ◌∷◌, if◌then◌else◌}
use zephyr_cyw43_driver.Prelude.Int.{ℤ, pos}
use zephyr_cyw43_driver.Prelude.Fault.{Returns, Returns-bind, pure}
use zephyr_cyw43_driver.Wifi.Platform.{Platform, Config, Call}
use zephyr_cyw43_driver.Wifi.Device.{Driver, Device, Request}
use zephyr_cyw43_driver.Wifi.Scan.{scan}
use zephyr_cyw43_driver.Wifi.Scan.Outcome.{IsScanned, scan-IsScanned}
use zephyr_cyw43_driver.Wifi.Mgmt.{post, mgmt_scan}
use zephyr_cyw43_driver.Wifi.Work.{serve, request_work}

-- The state once a scan was asked for.
abbrev pub scan_posted : Bool → ℕ → Driver → Driver
scan_posted active cb s =
    let d : Device = s.dev in
    record {
      dev = record d {
        scan_cb = some cb;
        req = if active then Request.active_scan else Request.passive_scan;
      };
      log = Call.unlock ∷ Call.work_submit ∷ Call.lock ∷ s.log;
    }

-- What the work item does with a scan: as `zephyr_cyw43_scan`, whose code it drops.
abbrev pub Scanned : Platform → Bool → ℕ → Driver → Unit {0} → Driver → Type 0
Scanned p active cb t _ u = (rv : ℤ) × IsScanned p active cb t rv u

-- A request for a scan is accepted in any state, and submitted once, under the lock. Where the
-- work item then runs on it, it returns, and has scanned in the mode asked for, for the caller's
-- callback: at once if a scan was under way or refused, and otherwise with a bounded wait and one
-- report of the end, to that callback.
pub request_work-mgmt_scan :
    (p : Platform) (c : Config) (active : Bool) (cb : ℕ) (s : Driver)
    → (mgmt_scan active cb s ≡ some (pos 0, scan_posted active cb s))
      × Returns
          (Scanned p active cb (scan_posted active cb s))
          (request_work p c (scan_posted active cb s))
unfolding mgmt_scan post request_work serve
request_work-mgmt_scan p c true cb s =
    let t : Driver = scan_posted true cb s in
    (
      refl,
      Returns-bind (IsScanned p true cb t) (Scanned p true cb t) (scan p true) (λ _. pure tt) t
          (scan-IsScanned p true cb t refl) (λ rv u h. (rv, h)),
    )
request_work-mgmt_scan p c false cb s =
    let t : Driver = scan_posted false cb s in
    (
      refl,
      Returns-bind (IsScanned p false cb t) (Scanned p false cb t) (scan p false) (λ _. pure tt) t
          (scan-IsScanned p false cb t refl) (λ rv u h. (rv, h)),
    )
