-- ===== src/Wifi/Balance/Requested.antt =====
-- The requests that the work item runs.
use zephyr_cyw43_driver.Prelude.{
  ℕ, zero, suc, Bool, true, false, arith, refl, Option, none, some, if◌then◌else◌,
}
use zephyr_cyw43_driver.Prelude.Int.{ℤ, pos, is_zero}
use zephyr_cyw43_driver.Prelude.Fault.{M, ◌>>◌, pure}
use zephyr_cyw43_driver.Wifi.Platform.{Platform, Config, Call, join, Network, ScanResult}
use zephyr_cyw43_driver.Wifi.Device.{
  Driver, ConnectParams, Request, perform, scan_active, link_status,
}
use zephyr_cyw43_driver.Wifi.Balance.{
  Kind, Keeps, Keeps-bind, Keeps-then, Keeps-pure, Keeps-perform, Keeps-invoke, Keeps-get,
  Keeps-Bool,
}
use zephyr_cyw43_driver.Wifi.Join.{
  at_hand, join_request, link_holds, join_attempts, report_join, connect, disconnect,
}
use zephyr_cyw43_driver.Wifi.Scan.{ScanEvent, call_scan_cb, process_scan_result, await_scan, scan}
use zephyr_cyw43_driver.Wifi.AccessPoint.{configure_ap, start_dhcp_server, enable_ap, disable_ap}
use zephyr_cyw43_driver.Wifi.Work.{set_pm, serve, request_work}

call_scan_cb-Keeps : (o : Kind) (r : Option ScanResult) → Keeps o (call_scan_cb r)
unfolding call_scan_cb Keeps
call_scan_cb-Keeps o r s = ground arith

module _ (p : Platform) (o : Kind) where
  link_status-Keeps : Keeps o (link_status p)
  unfolding Keeps
  link_status-Keeps s = ground arith

  scan_active-Keeps : Keeps o (scan_active p)
  unfolding Keeps
  scan_active-Keeps s = ground arith

  join_request-Keeps : (params : ConnectParams) → Keeps o (join_request p params params.security)
  unfolding join_request Keeps
  join_request-Keeps params s = ground arith

  link_holds-Keeps : (j : ℕ) → Keeps o (link_holds p j)
  unfolding link_holds
  link_holds-Keeps zero = Keeps-pure o true
  link_holds-Keeps (suc j) = Keeps-bind o (link_status p) _ link_status-Keeps (λ status.
      elim status
        as (λ k. Keeps o (elim k as (λ x. M Driver Bool) [
          | join ↦ (do perform (Call.sleep 500); link_holds p j)
          | _ ↦ pure false
        ])) [
          | join ↦
              Keeps-then o _ _
                (Keeps-perform o _ (λ l. (refl, refl, refl, refl, refl, refl, refl, refl)))
                (link_holds-Keeps j)
          | _ ↦ Keeps-pure o false
        ])

  join_attempts-Keeps : (i : ℕ) (n : Network) (rv : ℤ) → Keeps o (join_attempts p i n rv)
  unfolding join_attempts
  join_attempts-Keeps zero n rv = Keeps-pure o rv
  join_attempts-Keeps (suc i) n rv = Keeps-get o _ (λ s.
      Keeps-bind o _ _
        (Keeps-invoke o p (Call.wifi_join (at_hand n s.dev.connect_params))
          (λ l. (refl, refl, refl, refl, refl, refl, refl, refl)))
        (λ code.
          Keeps-Bool o _ _ (is_zero code)
            (Keeps-bind o _ _ (link_holds-Keeps 8) (λ held.
              Keeps-Bool o _ _ held (Keeps-pure o (pos 0)) (join_attempts-Keeps i n (pos 1))))
            (join_attempts-Keeps i n code)))

  await_scan-Keeps : (i : ℕ) → Keeps o (await_scan p i)
  unfolding await_scan
  await_scan-Keeps zero = Keeps-pure o tt
  await_scan-Keeps (suc i) = Keeps-bind o _ _ scan_active-Keeps (λ busy.
      Keeps-Bool o _ _ busy
        (Keeps-then o _ _
          (Keeps-perform o (Call.sleep 50) (λ l. (refl, refl, refl, refl, refl, refl, refl, refl)))
          (await_scan-Keeps i))
        (Keeps-pure o tt))

  scan-Keeps : (active : Bool) → Keeps o (scan p active)
  unfolding scan
  scan-Keeps active = Keeps-bind o _ _ scan_active-Keeps (λ busy.
      Keeps-Bool o _ _ busy (Keeps-pure o (pos 0)) (
        Keeps-bind o _ _
          (Keeps-invoke o p (Call.wifi_scan (if active then 0 else 1))
            (λ l. (refl, refl, refl, refl, refl, refl, refl, refl)))
          (λ err.
            Keeps-Bool o _ _ (is_zero err)
              (Keeps-then o _ _ (await_scan-Keeps 50)
                (Keeps-then o _ _ (call_scan_cb-Keeps o none) (Keeps-pure o err)))
              (Keeps-pure o err))))

  pub process_scan_result-Keeps : (r : Option ScanEvent) → Keeps o (process_scan_result p r)
  unfolding process_scan_result call_scan_cb Keeps
  process_scan_result-Keeps none s = ground arith
  process_scan_result-Keeps (some r) s = ground arith

  configure_ap-Keeps : (n : Network) → Keeps o (configure_ap p n)
  unfolding configure_ap Keeps
  configure_ap-Keeps n s = ground arith

  start_dhcp_server-Keeps : Keeps o (start_dhcp_server p)
  unfolding start_dhcp_server Keeps
  start_dhcp_server-Keeps s = ground arith

  module _ (c : Config) where
    report_join-Keeps : (rv : ℤ) → Keeps o (report_join p c rv)
    unfolding report_join Keeps
    report_join-Keeps rv s = ground arith

    connect-Keeps : Keeps o (connect p c)
    unfolding connect
    connect-Keeps = Keeps-get o _ (λ s.
        Keeps-bind o _ _ (join_request-Keeps s.dev.connect_params)
          (λ n. Keeps-bind o _ _ (join_attempts-Keeps 5 n (pos 0)) report_join-Keeps))

    disconnect-Keeps : Keeps o (disconnect p c)
    unfolding disconnect Keeps
    disconnect-Keeps s = ground arith

    enable_ap-Keeps : Keeps o (enable_ap p c)
    unfolding enable_ap
    enable_ap-Keeps = Keeps-get o _ (λ s.
        Keeps-bind o _ _ (join_request-Keeps s.dev.ap_params) (λ n.
          Keeps-then o _ _ (configure_ap-Keeps n) (
            Keeps-Bool o _ _ c.ap_auto_dhcpv4 start_dhcp_server-Keeps (
              Keeps-then o _ _
                (Keeps-perform o _ (λ l. (refl, refl, refl, refl, refl, refl, refl, refl)))
                (Keeps-pure o (pos 0))))))

    disable_ap-Keeps : Keeps o (disable_ap p c)
    unfolding disable_ap Keeps
    disable_ap-Keeps s = ground arith

    set_pm-Keeps : Keeps o (set_pm p c)
    unfolding set_pm Keeps
    set_pm-Keeps s = ground arith

    serve-Keeps : (r : Request) → Keeps o (serve p c r)
    unfolding serve
    serve-Keeps Request.connect =
        Keeps-bind o _ _ connect-Keeps
          (λ err. Keeps-perform o _ (λ l. (refl, refl, refl, refl, refl, refl, refl, refl)))
    serve-Keeps Request.disconnect =
        Keeps-bind o _ _ disconnect-Keeps
          (λ err. Keeps-perform o _ (λ l. (refl, refl, refl, refl, refl, refl, refl, refl)))
    serve-Keeps Request.passive_scan = Keeps-bind o _ _ (scan-Keeps false) (λ err. Keeps-pure o tt)
    serve-Keeps Request.active_scan = Keeps-bind o _ _ (scan-Keeps true) (λ err. Keeps-pure o tt)
    serve-Keeps Request.enable_ap = Keeps-bind o _ _ enable_ap-Keeps (λ err. Keeps-pure o tt)
    serve-Keeps Request.disable_ap = Keeps-bind o _ _ disable_ap-Keeps (λ err. Keeps-pure o tt)
    serve-Keeps Request.set_pm = Keeps-bind o _ _ set_pm-Keeps (λ err. Keeps-pure o tt)
    serve-Keeps Request.iface_status = Keeps-pure o tt
    serve-Keeps Request.idle = Keeps-pure o tt

    pub request_work-Keeps : Keeps o (request_work p c)
    unfolding request_work
    request_work-Keeps = Keeps-get o _ (λ s. serve-Keeps s.dev.req)
