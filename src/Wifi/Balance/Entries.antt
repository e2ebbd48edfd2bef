-- ===== src/Wifi/Balance/Entries.antt =====
-- The entries of the driver, and that each of them gives the lock back.
use zephyr_cyw43_driver.Prelude.{
  ℕ, ◌+◌, ◌≡◌, arith, refl, Bool, if◌then◌else◌, List, Option, none, some,
}
use zephyr_cyw43_driver.Prelude.Fault.{M, ◌>>=◌, pure, IfReturns, IfReturns-weaken}
use zephyr_cyw43_driver.Wifi.Platform.{Platform, Config}
use zephyr_cyw43_driver.Wifi.Device.{Driver, Request}
use zephyr_cyw43_driver.Wifi.Counts.{locks, unlocks}
use zephyr_cyw43_driver.Wifi.Scan.{ScanEvent, process_scan_result}
use zephyr_cyw43_driver.Wifi.Work.{request_work}
use zephyr_cyw43_driver.Wifi.Mgmt.{
  ConnectRequest, mgmt_scan, mgmt_connect, mgmt_disconnect, mgmt_ap_enable, mgmt_ap_disable,
  mgmt_set_pm,
}
use zephyr_cyw43_driver.Wifi.Frames.{send, process_ethernet}
use zephyr_cyw43_driver.Wifi.Status.{iface_status, pm_status}
use zephyr_cyw43_driver.Wifi.Start.{init, iface_init}
use zephyr_cyw43_driver.Wifi.Balance.{
  Kind, quiet, frames, posts, Even, Kept, Keeps, Keeps-bind, Keeps-pure,
}
use zephyr_cyw43_driver.Wifi.Balance.Requested.{request_work-Keeps, process_scan_result-Keeps}
use zephyr_cyw43_driver.Wifi.Balance.Requests.{
  mgmt_scan-Keeps, mgmt_connect-Keeps, mgmt_disconnect-Keeps, mgmt_ap_enable-Keeps,
  mgmt_ap_disable-Keeps, mgmt_set_pm-Keeps, send-Keeps, process_ethernet-Keeps, iface_status-Keeps,
  pm_status-Keeps, init-Keeps, iface_init-Keeps,
}

-- What the kernel, the network stack and the library call, with what they pass.
pub data Entry : Type 0 where
  at_init at_iface_init at_work at_disconnect at_ap_disable at_iface_status at_pm_status : Entry
  at_scan : (active : Bool) → (cb : ℕ) → Entry
  at_connect at_ap_enable : ConnectRequest → Entry
  at_set_pm : (is_state enabled : Bool) → Entry
  at_send : (len : ℕ) → Entry
  at_scan_result : Option ScanEvent → Entry
  at_ethernet : List ℕ → Entry

-- The request that an entry posts, if it posts one.
abbrev pub request_of : Entry → Option Request
request_of Entry.at_disconnect = some Request.disconnect
request_of Entry.at_ap_disable = some Request.disable_ap
request_of (Entry.at_scan active cb) =
    some (if active then Request.active_scan else Request.passive_scan)
request_of (Entry.at_connect params) = some Request.connect
request_of (Entry.at_ap_enable params) = some Request.enable_ap
request_of (Entry.at_set_pm is_state enabled) = some Request.set_pm
request_of _ = none

abbrev pub kind_of : Entry → Kind
kind_of (Entry.at_send len) = frames
kind_of (Entry.at_ethernet buf) = frames
kind_of e = elim (request_of e) [ none ↦ quiet | some r ↦ posts r ]

pub request_of-kind_of : (e : Entry) (r : Request) → kind_of e ≡ posts r → request_of e ≡ some r
request_of-kind_of e r h = ground arith

module _ (p : Platform) (c : Config) where
  -- A call, its result aside.
  abbrev quietly : {A : Type 0} → M Driver A → M Driver (Unit {0})
  quietly m = m >>= λ _. pure tt

  unfoldable pub enter : Entry → M Driver (Unit {0})
  enter Entry.at_init = quietly (init p c)
  enter Entry.at_iface_init = iface_init p c
  enter Entry.at_work = request_work p c
  enter Entry.at_disconnect = quietly mgmt_disconnect
  enter Entry.at_ap_disable = quietly mgmt_ap_disable
  enter Entry.at_iface_status = quietly (iface_status p)
  enter Entry.at_pm_status = quietly (pm_status p)
  enter (Entry.at_scan active cb) = quietly (mgmt_scan active cb)
  enter (Entry.at_connect params) = quietly (mgmt_connect p params)
  enter (Entry.at_ap_enable params) = quietly (mgmt_ap_enable p params)
  enter (Entry.at_set_pm is_state enabled) = quietly (mgmt_set_pm p c is_state enabled)
  enter (Entry.at_send len) = quietly (send p c len)
  enter (Entry.at_scan_result r) = quietly (process_scan_result p r)
  enter (Entry.at_ethernet buf) = process_ethernet p c buf

  quietly-Keeps : {A : Type 0} (o : Kind) (m : M Driver A) → Keeps o m → Keeps o (quietly m)
  quietly-Keeps o m h = Keeps-bind o m _ h (λ _. Keeps-pure o tt)

  -- An entry releases the lock as often as it takes it, submits the work item only with the request
  -- that it posts, and takes no callback away.
  pub enter-Keeps : (e : Entry) → Keeps (kind_of e) (enter e)
  unfolding enter
  enter-Keeps Entry.at_init = quietly-Keeps quiet _ (init-Keeps p quiet c)
  enter-Keeps Entry.at_iface_init = iface_init-Keeps p quiet c
  enter-Keeps Entry.at_work = request_work-Keeps p quiet c
  enter-Keeps Entry.at_disconnect = quietly-Keeps _ _ (mgmt_disconnect-Keeps _ refl)
  enter-Keeps Entry.at_ap_disable = quietly-Keeps _ _ (mgmt_ap_disable-Keeps _ refl)
  enter-Keeps Entry.at_iface_status = quietly-Keeps quiet _ (iface_status-Keeps p quiet)
  enter-Keeps Entry.at_pm_status = quietly-Keeps quiet _ (pm_status-Keeps p quiet)
  enter-Keeps (Entry.at_scan active cb) = quietly-Keeps _ _ (mgmt_scan-Keeps _ active cb refl)
  enter-Keeps (Entry.at_connect params) = quietly-Keeps _ _ (mgmt_connect-Keeps p _ params refl)
  enter-Keeps (Entry.at_ap_enable params) = quietly-Keeps _ _ (mgmt_ap_enable-Keeps p _ params refl)
  enter-Keeps (Entry.at_set_pm is_state enabled) =
      quietly-Keeps _ _ (mgmt_set_pm-Keeps p _ c is_state enabled refl)
  enter-Keeps (Entry.at_send len) = quietly-Keeps _ _ (send-Keeps p _ c len refl)
  enter-Keeps (Entry.at_scan_result r) = quietly-Keeps quiet _ (process_scan_result-Keeps p quiet r)
  enter-Keeps (Entry.at_ethernet buf) = process_ethernet-Keeps p _ c buf refl

  -- Every entry of the driver that returns, whatever its arguments and whatever the library, the
  -- kernel and the network stack answer, has released the lock as often as it took it, on its
  -- error paths too.
  enter-Even :
      (e : Entry) (s : Driver)
      → IfReturns (λ _ t. locks t.log + unlocks s.log ≡ locks s.log + unlocks t.log) (enter e s)
  unfolding Keeps
  enter-Even e s =
      IfReturns-weaken (λ _ t. Kept (kind_of e) s t) (λ _ t. Even s t) (enter e s) (enter-Keeps e s)
        (λ _ t k. k.0)
