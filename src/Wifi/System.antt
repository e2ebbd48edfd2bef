-- ===== src/Wifi/System.antt =====
-- The driver from power-on: `zephyr_cyw43_init` and `zephyr_cyw43_iface_init` on the static device,
-- and then any calls, in any order, between runs of the work item that the kernel's queue starts.
pub mod Reached
pub mod Counted
pub mod Served
use zephyr_cyw43_driver.Prelude.{
  ℕ, ◌≤◌, ◌≡◌, Bool, true, false, ◌||◌, ltb, List, [], ◌∷◌, Option, none, some, length, replicate,
}
use zephyr_cyw43_driver.Prelude.Fault.{M, ◌>>◌}
use zephyr_cyw43_driver.Wifi.Platform.{Platform, Config, Security}
use zephyr_cyw43_driver.Wifi.Device.{Driver, Device, ConnectParams, Request, Role}
use zephyr_cyw43_driver.Wifi.Counts.{submits}
use zephyr_cyw43_driver.Wifi.Balance.{asks_scan}
use zephyr_cyw43_driver.Wifi.Balance.Entries.{Entry, enter, request_of}
use zephyr_cyw43_driver.Wifi.Safe.Requests.{FitsDevice}

-- What static storage holds before the first call: zeros, which are null pointers, empty texts and
-- the first value of each enum.
abbrev pub zero_params : ConnectParams
zero_params = record {
  ssid = replicate 33 0;
  psk = replicate 65 0;
  security = Security.no_security;
  channel = 0;
}

abbrev pub zero_device : ℕ → Device
zero_device frame_size = record {
  iface = false;
  scan_cb = none;
  connect_params = zero_params;
  ap_params = zero_params;
  pm_out = 0;
  pm_in = 0;
  req = Request.active_scan;
  role = Role.client;
  stats = record {
    bytes_received = 0;
    bytes_sent = 0;
    pkts_rx = 0;
    pkts_tx = 0;
    errors_rx = 0;
    errors_tx = 0;
    broadcast_rx = 0;
    broadcast_tx = 0;
    multicast_rx = 0;
    multicast_tx = 0;
    beacons_rx = 0;
    beacons_miss = 0;
  };
  frame_buf = replicate frame_size 0;
}

-- `queued`: the work item is in the kernel's queue, where a submission puts it unless it is there.
pub record System : Type 0 where
  pub driver : Driver
  pub queued : Bool

-- A call that ended, and whether it submitted the work item; a run of the work item, and the
-- request that it found.
pub data Event : Type 0 where
  called : Entry → (accepted : Bool) → Event
  worked : Request → Event

-- Of the events so far, newest first: the request that waits for the work item.
abbrev pub pending : List Event → Option Request
pending [] = none
pending (called e true ∷ es) = request_of e
pending (called e false ∷ es) = pending es
pending (worked r ∷ es) = none

-- Whether a scan was handed to the library.
abbrev pub scanned : List Event → Bool
scanned [] = false
scanned (called e accepted ∷ es) = scanned es
scanned (worked r ∷ es) = asks_scan r || scanned es

-- What callers see to: texts of at most 32 and 64 bytes, frames that fit the buffer, and results of
-- a scan only after a scan. The three that the kernel calls are no calls here.
abbrev pub Permitted : ℕ → List Event → Entry → Type 0
Permitted frame_size es Entry.at_init = ⊥
Permitted frame_size es Entry.at_iface_init = ⊥
Permitted frame_size es Entry.at_work = ⊥
Permitted frame_size es (Entry.at_connect params) = FitsDevice params
Permitted frame_size es (Entry.at_ap_enable params) = FitsDevice params
Permitted frame_size es (Entry.at_send len) = len ≤ frame_size
Permitted frame_size es (Entry.at_scan_result (some r)) = (length r.ssid ≡ 32) × (scanned es ≡ true)
Permitted frame_size es _ = Unit

abbrev pub submitted : Driver → Driver → Bool
submitted s t = ltb (submits s.log) (submits t.log)

abbrev pub powered : ℕ → Driver
powered frame_size = record { dev = zero_device frame_size; log = [] }

module _ (p : Platform) (c : Config) where
  unfoldable pub boot : M Driver (Unit {0})
  unfolding enter
  boot = do enter p c Entry.at_init; enter p c Entry.at_iface_init

module _ (p : Platform) (c : Config) (frame_size : ℕ) where
  pub data Runs : List Event → System → Type 0 where
    start :
        {t : Driver}
        → boot p c (powered frame_size) ≡ some (tt, t)
        → Runs [] (record { driver = t; queued = false })
    call :
        {es : List Event} {s : System} {t : Driver}
        → Runs es s
        → (e : Entry) → Permitted frame_size es e
        → enter p c e s.driver ≡ some (tt, t)
        → Runs
            (called e (submitted s.driver t) ∷ es)
            (record { driver = t; queued = s.queued || submitted s.driver t })
    work :
        {es : List Event} {s : System} {t : Driver}
        → Runs es s
        → s.queued ≡ true
        → enter p c Entry.at_work s.driver ≡ some (tt, t)
        → Runs (worked s.driver.dev.req ∷ es) (record { driver = t; queued = submitted s.driver t })
