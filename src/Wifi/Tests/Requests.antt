-- ===== src/Wifi/Tests/Requests.antt =====
-- Runs of the guards of the management interface, and of the requests they accept.
use zephyr_cyw43_driver.Prelude.{◌≡◌, ◌⊎◌, arith, refl, true, false}
use zephyr_cyw43_driver.Prelude.Int.{pos, neg}
use zephyr_cyw43_driver.Prelude.Fault.{Returns}
use zephyr_cyw43_driver.Wifi.Device.{Driver, Request, is_up}
use zephyr_cyw43_driver.Prelude.{inr, some}
use zephyr_cyw43_driver.Wifi.Work.{request_work}
use zephyr_cyw43_driver.Wifi.Work.Connecting.{IsServed, request_work-mgmt_connect}
use zephyr_cyw43_driver.Wifi.Mgmt.{mgmt_connect, mgmt_ap_enable}
use zephyr_cyw43_driver.Wifi.Mgmt.Guards.{Fits, ConnectStored, ApStored, asked, station_linked}
use zephyr_cyw43_driver.Wifi.Mgmt.Guards.{mgmt_connect_lem, mgmt_ap_enable_lem}
use zephyr_cyw43_driver.Wifi.Tests.Host.{config, idle_host, stored, blank, wanted, driver}

stored-Fits : Fits stored wanted
stored-Fits = record {
  ssid_room = omega arith;
  ssid_inside = omega arith;
  psk_room = omega arith;
  psk_inside = omega arith;
}

blank-Fits : Fits blank wanted
blank-Fits = record {
  ssid_room = omega arith;
  ssid_inside = omega arith;
  psk_room = omega arith;
  psk_inside = omega arith;
}

mgmt_connect_lem_example :
    let s : Driver = driver Request.idle in
    let l = asked idle_host s.log in
    let linked = station_linked idle_host s.log in
    let up = is_up (idle_host.itf_state l) idle_host.itf_ap in
    Returns
      (λ rv s'.
        ((linked ≡ true) × (rv ≡ neg idle_host.eagain) × (s' ≡ record s { log = l }))
        ⊎ ((linked ≡ false)
            × (up ≡ true)
            × (rv ≡ neg idle_host.ebusy)
            × (s' ≡ record s { log = l }))
        ⊎ ((linked ≡ false) × (up ≡ false) × (rv ≡ pos 0) × ConnectStored idle_host wanted s l s'))
      (mgmt_connect idle_host wanted s)
mgmt_connect_lem_example = mgmt_connect_lem idle_host wanted (driver Request.idle) stored-Fits

mgmt_ap_enable_lem_example :
    let s : Driver = driver Request.idle in
    let l = asked idle_host s.log in
    let linked = station_linked idle_host s.log in
    let up = is_up (idle_host.itf_state s.log) idle_host.itf_ap in
    Returns
      (λ rv s'.
        ((up ≡ true) × (rv ≡ neg idle_host.eagain) × (s' ≡ s))
        ⊎ ((up ≡ false)
            × (linked ≡ true)
            × (rv ≡ neg idle_host.ebusy)
            × (s' ≡ record s { log = l }))
        ⊎ ((up ≡ false) × (linked ≡ false) × (rv ≡ pos 0) × ApStored idle_host wanted s l s'))
      (mgmt_ap_enable idle_host wanted s)
mgmt_ap_enable_lem_example = mgmt_ap_enable_lem idle_host wanted (driver Request.idle) blank-Fits

request_work-mgmt_connect_example :
    (t : Driver) × (mgmt_connect idle_host wanted (driver Request.idle) ≡ some (pos 0, t))
    × Returns (IsServed idle_host config wanted t) (request_work idle_host config t)
request_work-mgmt_connect_example =
    request_work-mgmt_connect idle_host config wanted (driver Request.idle) stored-Fits
      (inr (inr refl)) refl refl
