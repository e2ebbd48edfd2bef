-- ===== src/Wifi/Safe/Entries.antt =====
-- Every entry of the driver, from a well-formed device.
use zephyr_cyw43_driver.Prelude.{
  ℕ, ◌≤◌, ◌≡◌, ◌≢◌, arith, Bool, Bool-cases, true, false, inl, inr, List, ◌∷◌, Option, none, some,
  length,
}
use zephyr_cyw43_driver.Prelude.Fault.{M, ◌>>=◌, pure, Returns, Returns-bind}
use zephyr_cyw43_driver.Wifi.Platform.{Platform, Config, Call, pkt_read}
use zephyr_cyw43_driver.Wifi.Device.{Driver, Device, Request}
use zephyr_cyw43_driver.Wifi.Scan.{process_scan_result}
use zephyr_cyw43_driver.Wifi.Balance.Entries.{Entry, enter}
use zephyr_cyw43_driver.Wifi.Safe.{WellFormed, Ready, Safe, Safe-bind, Safe-pure}
use zephyr_cyw43_driver.Wifi.Safe.Requested.{request_work-Safe}
use zephyr_cyw43_driver.Wifi.Safe.Requests.{
  FitsDevice, mgmt_scan-Safe, mgmt_connect-Safe, mgmt_disconnect-Safe, mgmt_ap_enable-Safe,
  mgmt_ap_disable-Safe, mgmt_set_pm-Safe, send-Safe, process_ethernet-Safe, iface_status-Safe,
  pm_status-Safe, init-Safe, iface_init-Safe, process_scan_result-Safe,
}

-- What the caller of an entry sees to: texts of at most 32 and 64 bytes, frames that fit the
-- buffer, and results of a scan only once its callback is set.
abbrev pub Allowed : ℕ → Entry → Device → Type 0
Allowed frame_size (Entry.at_connect params) d = FitsDevice params
Allowed frame_size (Entry.at_ap_enable params) d = FitsDevice params
Allowed frame_size (Entry.at_send len) d = len ≤ frame_size
Allowed frame_size (Entry.at_scan_result (some r)) d = (length r.ssid ≡ 32) × (d.scan_cb ≢ none)
Allowed _ _ _ = Unit

-- The network stack copies at most as many bytes of a packet as it is asked for.
abbrev pub Reads : Platform → Type 0
Reads p = (n : ℕ) (l : List Call) → length (p.bytes (pkt_read n ∷ l)) ≤ n

abbrev pub is_work : Entry → Bool
is_work Entry.at_work = true
is_work _ = false

is_work_lem : (e : Entry) → is_work e ≡ true → e ≡ Entry.at_work
is_work_lem e h = ground arith

-- Every entry but the work item, whatever is known of the pending request.
module _ (p : Platform) (c : Config) (frame_size : ℕ) (Q : Request → Option ℕ → Type 0)
    (posts : (r : Request) (o : Option ℕ) → Ready r o → Q r o) where
  quietly-Safe :
      {A : Type 0} (m : M Driver A) → Safe frame_size Q m → Safe frame_size Q (m >>= λ _. pure tt)
  quietly-Safe m h = Safe-bind frame_size Q m _ h (λ _. Safe-pure frame_size Q tt)

  pub call-WellFormed :
      Reads p
      → (e : Entry) (s : Driver) → is_work e ≡ false
      → Allowed frame_size e s.dev
      → WellFormed frame_size Q s.dev
      → Returns (λ _ t. WellFormed frame_size Q t.dev) (enter p c e s)
  unfolding enter Safe process_scan_result
  call-WellFormed reads Entry.at_init s n a w =
      quietly-Safe _ (init-Safe p frame_size Q posts c) s w
  call-WellFormed reads Entry.at_iface_init s n a w = iface_init-Safe p frame_size Q posts c s w
  call-WellFormed reads Entry.at_work s n a w = absurd (ground (arith, n))
  call-WellFormed reads Entry.at_disconnect s n a w =
      quietly-Safe _ (mgmt_disconnect-Safe p frame_size Q posts) s w
  call-WellFormed reads Entry.at_ap_disable s n a w =
      quietly-Safe _ (mgmt_ap_disable-Safe p frame_size Q posts) s w
  call-WellFormed reads Entry.at_iface_status s n a w =
      quietly-Safe _ (iface_status-Safe p frame_size Q posts) s w
  call-WellFormed reads Entry.at_pm_status s n a w =
      quietly-Safe _ (pm_status-Safe p frame_size Q posts) s w
  call-WellFormed reads (Entry.at_scan active cb) s n a w =
      quietly-Safe _ (mgmt_scan-Safe p frame_size Q posts active cb) s w
  call-WellFormed reads (Entry.at_connect params) s n a w =
      quietly-Safe _ (mgmt_connect-Safe p frame_size Q posts params a) s w
  call-WellFormed reads (Entry.at_ap_enable params) s n a w =
      quietly-Safe _ (mgmt_ap_enable-Safe p frame_size Q posts params a) s w
  call-WellFormed reads (Entry.at_set_pm is_state enabled) s n a w =
      quietly-Safe _ (mgmt_set_pm-Safe p frame_size Q posts c is_state enabled) s w
  call-WellFormed reads (Entry.at_send len) s n a w =
      quietly-Safe _ (send-Safe p frame_size Q posts c len (λ l. omega (arith, reads len l, a))) s w
  call-WellFormed reads (Entry.at_scan_result none) s n a w = w
  call-WellFormed reads (Entry.at_scan_result (some r)) s n a w =
      Returns-bind (λ _ t. WellFormed frame_size Q t.dev) (λ _ t. WellFormed frame_size Q t.dev)
        (process_scan_result p (some r)) (λ _. pure tt) s
        (process_scan_result-Safe p frame_size Q posts r s (a.0) (a.1) w) (λ rv t v. v)
  call-WellFormed reads (Entry.at_ethernet buf) s n a w =
      process_ethernet-Safe p frame_size Q posts c buf s w

module _ (p : Platform) (c : Config) (frame_size : ℕ) where
  work-WellFormed :
      (e : Entry) (s : Driver)
      → e ≡ Entry.at_work
      → WellFormed frame_size Ready s.dev
      → Returns (λ _ t. WellFormed frame_size Ready t.dev) (enter p c e s)
  unfolding enter Safe
  work-WellFormed e s is w = rw is (request_work-Safe p c frame_size s w)

  -- Where the network stack copies at most as many bytes of a packet as it is asked for, an entry
  -- that is called as the driver's interfaces ask always returns, whatever else is answered to it:
  -- it accesses no memory outside its buffers, calls no null pointer, and leaves the device as
  -- well-formed as it was, with the stored texts terminated inside their buffers and the callback
  -- set where a scan is pending.
  pub enter-WellFormed :
      Reads p
      → (e : Entry) (s : Driver) → Allowed frame_size e s.dev
      → WellFormed frame_size Ready s.dev
      → Returns (λ _ t. WellFormed frame_size Ready t.dev) (enter p c e s)
  enter-WellFormed reads e s a w = elim (Bool-cases (is_work e)) [
    | inl work ↦ work-WellFormed e s (is_work_lem e work) w
    | inr other ↦ call-WellFormed p c frame_size Ready (λ r o h. h) reads e s other a w
  ]
