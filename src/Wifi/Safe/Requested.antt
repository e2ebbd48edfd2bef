-- ===== src/Wifi/Safe/Requested.antt =====
-- The requests that the work item runs fault nowhere.
use zephyr_cyw43_driver.Prelude.{
  ℕ, zero, suc, ◌≢◌, Bool, true, false, arith, Option, none, if◌then◌else◌,
}
use zephyr_cyw43_driver.Prelude.Int.{ℤ, pos, is_zero}
use zephyr_cyw43_driver.Prelude.Fault.{M, ◌>>=◌, ◌>>◌, pure, Returns, Returns-weaken}
use zephyr_cyw43_driver.Wifi.Platform.{
  Platform, Config, Call, Network, join, ScanResult, Security, no_security, wpa_psk, psk, unknown,
}
use zephyr_cyw43_driver.Wifi.Device.{
  Driver, ConnectParams, Request, perform, link_status, scan_active,
}
use zephyr_cyw43_driver.Wifi.Join.{
  at_hand, join_request, link_holds, join_attempts, report_join, connect, disconnect,
}
use zephyr_cyw43_driver.Wifi.Scan.{call_scan_cb, await_scan, scan}
use zephyr_cyw43_driver.Wifi.AccessPoint.{configure_ap, start_dhcp_server, enable_ap, disable_ap}
use zephyr_cyw43_driver.Wifi.Work.{set_pm, serve, request_work}
use zephyr_cyw43_driver.Wifi.Safe.{
  Texts, WellFormed, IsScan, Ready, Safe, Safe-bind, Safe-then, Safe-pure, Safe-perform,
  Safe-invoke, Safe-get, Safe-Bool,
}

module _ (p : Platform) (c : Config) (frame_size : ℕ) (Q : Request → Option ℕ → Type 0) where
  join_request-Safe :
      (params : ConnectParams) (x : Security)
      → Texts params
      → Safe frame_size Q (join_request p params x)
  unfolding join_request Safe
  join_request-Safe params no_security t s w = rw (t.ssid) w
  join_request-Safe params wpa_psk t s w = rw (t.ssid, t.psk) w
  join_request-Safe params psk t s w = rw (t.ssid, t.psk) w
  join_request-Safe params unknown t s w = w
  join_request-Safe params (Security.other n) t s w = w

  link_status-Safe : Safe frame_size Q (link_status p)
  unfolding Safe
  link_status-Safe s w = w

  scan_active-Safe : Safe frame_size Q (scan_active p)
  unfolding Safe
  scan_active-Safe s w = w

  link_holds-Safe : (j : ℕ) → Safe frame_size Q (link_holds p j)
  unfolding link_holds
  link_holds-Safe zero = Safe-pure _ _ true
  link_holds-Safe (suc j) = Safe-bind _ _ (link_status p) _ link_status-Safe (λ status.
      elim status
        as (λ k. Safe frame_size Q (elim k as (λ x. M Driver Bool) [
          | join ↦ (do perform (Call.sleep 500); link_holds p j)
          | _ ↦ pure false
        ])) [
          | join ↦ Safe-then _ _ _ _ (Safe-perform _ _ (Call.sleep 500)) (link_holds-Safe j)
          | _ ↦ Safe-pure _ _ false
        ])

  join_attempts-Safe : (i : ℕ) (n : Network) (rv : ℤ) → Safe frame_size Q (join_attempts p i n rv)
  unfolding join_attempts
  join_attempts-Safe zero n rv = Safe-pure _ _ rv
  join_attempts-Safe (suc i) n rv = Safe-get _ _ _ (λ s w.
      Safe-bind _ _ _ _ (Safe-invoke _ _ p (Call.wifi_join (at_hand n s.dev.connect_params)))
        (λ code.
          Safe-Bool _ _ _ _ (is_zero code)
            (Safe-bind _ _ _ _ (link_holds-Safe 8) (λ held.
              Safe-Bool _ _ _ _ held (Safe-pure _ _ (pos 0)) (join_attempts-Safe i n (pos 1))))
            (join_attempts-Safe i n code)))

  report_join-Safe : (rv : ℤ) → Safe frame_size Q (report_join p c rv)
  unfolding report_join Safe
  report_join-Safe rv s w = ground (arith, w)

  connect-Safe : Safe frame_size Q (connect p c)
  unfolding connect
  connect-Safe = Safe-get _ _ _ (λ s w.
      Safe-bind _ _ _ _
        (join_request-Safe s.dev.connect_params s.dev.connect_params.security (w.station))
        (λ n. Safe-bind _ _ _ _ (join_attempts-Safe 5 n (pos 0)) report_join-Safe))

  disconnect-Safe : Safe frame_size Q (disconnect p c)
  unfolding disconnect Safe
  disconnect-Safe s w = ground (arith, w)

  configure_ap-Safe : (n : Network) → Safe frame_size Q (configure_ap p n)
  unfolding configure_ap Safe
  configure_ap-Safe n s w = ground (arith, w)

  start_dhcp_server-Safe : Safe frame_size Q (start_dhcp_server p)
  unfolding start_dhcp_server Safe
  start_dhcp_server-Safe s w = ground (arith, w)

  enable_ap-Safe : Safe frame_size Q (enable_ap p c)
  unfolding enable_ap
  enable_ap-Safe = Safe-get _ _ _ (λ s w.
      Safe-bind _ _ _ _
        (join_request-Safe s.dev.ap_params s.dev.ap_params.security (w.access_point))
        (λ n. Safe-then _ _ _ _ (configure_ap-Safe n) (
          Safe-Bool _ _ _ _ c.ap_auto_dhcpv4 start_dhcp_server-Safe
            (Safe-then _ _ _ _ (Safe-perform _ _ Call.dormant_off) (Safe-pure _ _ (pos 0))))))

  disable_ap-Safe : Safe frame_size Q (disable_ap p c)
  unfolding disable_ap Safe
  disable_ap-Safe s w = ground (arith, w)

  set_pm-Safe : Safe frame_size Q (set_pm p c)
  unfolding set_pm Safe
  set_pm-Safe s w = w

  module _ (known : (r : Request) (o : Option ℕ) → Q r o → o ≢ none) where
    call_scan_cb-Safe : (r : Option ScanResult) → Safe frame_size Q (call_scan_cb r)
    unfolding call_scan_cb Safe
    call_scan_cb-Safe r s w = ground (arith, known s.dev.req s.dev.scan_cb (w.pending), w)

    await_scan-Safe : (i : ℕ) → Safe frame_size Q (await_scan p i)
    unfolding await_scan
    await_scan-Safe zero = Safe-pure _ _ tt
    await_scan-Safe (suc i) = Safe-bind _ _ _ _ scan_active-Safe (λ busy.
        Safe-Bool _ _ _ _ busy
          (Safe-then _ _ _ _ (Safe-perform _ _ (Call.sleep 50)) (await_scan-Safe i))
          (Safe-pure _ _ tt))

    scan-Safe : (active : Bool) → Safe frame_size Q (scan p active)
    unfolding scan
    scan-Safe active = Safe-bind _ _ _ _ scan_active-Safe (λ busy.
        Safe-Bool _ _ _ _ busy (Safe-pure _ _ (pos 0)) (
          Safe-bind _ _ _ _ (Safe-invoke _ _ p (Call.wifi_scan (if active then 0 else 1))) (λ err.
            Safe-Bool _ _ _ _ (is_zero err)
              (Safe-then _ _ _ _ (await_scan-Safe 50)
                (Safe-then _ _ _ _ (call_scan_cb-Safe none) (Safe-pure _ _ err)))
              (Safe-pure _ _ err))))

module _ (p : Platform) (c : Config) (frame_size : ℕ) where
  -- A scan runs with its callback set, and keeps it.
  abbrev Called : Request → Option ℕ → Type 0
  Called r o = o ≢ none

  scanned :
      (active : Bool) (s : Driver)
      → WellFormed frame_size Ready s.dev
      → s.dev.scan_cb ≢ none
      → Returns (λ _ t. WellFormed frame_size Ready t.dev) ((scan p active >>= λ err. pure tt) s)
  unfolding Safe
  scanned active s w set =
      Returns-weaken (λ _ t. WellFormed frame_size Called t.dev)
        (λ _ t. WellFormed frame_size Ready t.dev) ((scan p active >>= λ err. pure tt) s)
        (Safe-bind frame_size Called (scan p active) (λ err. pure tt)
          (scan-Safe p c frame_size Called (λ r o q. q) active) (λ err. Safe-pure _ _ tt) s
          (record {
            station = w.station;
            access_point = w.access_point;
            frame_room = w.frame_room;
            pending = set;
          }))
        (λ u t v. record {
          station = v.station;
          access_point = v.access_point;
          frame_room = v.frame_room;
          pending = λ is_scan. v.pending;
        })

  serve-Safe :
      (r : Request) (s : Driver)
      → WellFormed frame_size Ready s.dev
      → (IsScan r → s.dev.scan_cb ≢ none)
      → Returns (λ _ t. WellFormed frame_size Ready t.dev) (serve p c r s)
  unfolding serve Safe
  serve-Safe Request.connect s w set =
      Safe-bind _ _ _ _ (connect-Safe p c frame_size Ready)
        (λ err. Safe-perform _ _ (Call.connect_result_event err)) s w
  serve-Safe Request.disconnect s w set =
      Safe-bind _ _ _ _ (disconnect-Safe p c frame_size Ready)
        (λ err. Safe-perform _ _ (Call.disconnect_result_event err)) s w
  serve-Safe Request.passive_scan s w set = scanned false s w (set tt)
  serve-Safe Request.active_scan s w set = scanned true s w (set tt)
  serve-Safe Request.enable_ap s w set =
      Safe-bind _ _ _ _ (enable_ap-Safe p c frame_size Ready) (λ err. Safe-pure _ _ tt) s w
  serve-Safe Request.disable_ap s w set =
      Safe-bind _ _ _ _ (disable_ap-Safe p c frame_size Ready) (λ err. Safe-pure _ _ tt) s w
  serve-Safe Request.set_pm s w set =
      Safe-bind _ _ _ _ (set_pm-Safe p c frame_size Ready) (λ err. Safe-pure _ _ tt) s w
  serve-Safe Request.iface_status s w set = w
  serve-Safe Request.idle s w set = w

  pub request_work-Safe : Safe frame_size Ready (request_work p c)
  unfolding request_work Safe
  request_work-Safe s w = serve-Safe s.dev.req s w (w.pending)
