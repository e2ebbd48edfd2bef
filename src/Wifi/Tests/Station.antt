-- ===== src/Wifi/Tests/Station.antt =====
-- Runs of the station's operations: joining, scanning, the credentials, the work item.
use zephyr_cyw43_driver.Prelude.{◌≡◌, arith, refl, inr, true, some, [], ◌∷◌}
use zephyr_cyw43_driver.Prelude.Int.{pos}
use zephyr_cyw43_driver.Prelude.Fault.{Returns, ◌>>=◌, pure}
use zephyr_cyw43_driver.Prelude.Text.{strlen}
use zephyr_cyw43_driver.Wifi.Device.{Request}
use zephyr_cyw43_driver.Wifi.Join.{connect, join_request, join_attempts}
use zephyr_cyw43_driver.Wifi.Join.Outcome.{IsTerminated, IsConnected, connect-IsConnected}
use zephyr_cyw43_driver.Wifi.Scan.{scan}
use zephyr_cyw43_driver.Wifi.Scan.Outcome.{IsScanned, scan-IsScanned}
use zephyr_cyw43_driver.Wifi.Work.{request_work}
use zephyr_cyw43_driver.Wifi.Work.Scanning.{scan_posted, Scanned, request_work-mgmt_scan}
use zephyr_cyw43_driver.Wifi.Mgmt.{mgmt_scan}
use zephyr_cyw43_driver.Wifi.Mgmt.Guards.{Fits, Holds}
use zephyr_cyw43_driver.Wifi.Work.Overlap.{IsOverlapped, join_attempts-IsOverlapped}
use zephyr_cyw43_driver.Wifi.Mgmt.{ConnectRequest}
use zephyr_cyw43_driver.Wifi.Platform.{Security}
use zephyr_cyw43_driver.Wifi.Mgmt.Credentials.{Carries, join_request-Carries}
use zephyr_cyw43_driver.Wifi.Tests.Host.{idle_host, host, config, stored, blank, wanted, driver}

stored-IsTerminated : IsTerminated stored 2 1
unfolding strlen
stored-IsTerminated = record { ssid = refl; key = refl }

connect-IsConnected_example :
    Returns
      (IsConnected host config (driver Request.connect))
      (connect host config (driver Request.connect))
connect-IsConnected_example =
    connect-IsConnected host config (driver Request.connect) 2 1 stored-IsTerminated

scan-IsScanned_example :
    Returns
      (IsScanned host true 4 (driver Request.active_scan))
      (scan host true (driver Request.active_scan))
scan-IsScanned_example = scan-IsScanned host true 4 (driver Request.active_scan) refl

stored-Holds : Holds blank wanted stored
unfolding strlen
stored-Holds = record {
  ssid_room = refl;
  psk_room = refl;
  ssid = refl;
  psk = refl;
  ssid_len = refl;
  psk_len = refl;
  security = refl;
  channel = refl;
}

join_request-Carries_example :
    Returns
      (λ n s'. Carries host wanted n × (s' ≡ driver Request.connect))
      (join_request host stored stored.security (driver Request.connect))
join_request-Carries_example =
    join_request-Carries host blank stored wanted (driver Request.connect) stored-Holds
      (inr (inr refl))

request_work-mgmt_scan_example :
    (mgmt_scan true 4 (driver Request.idle)
      ≡ some (pos 0, scan_posted true 4 (driver Request.idle)))
    × Returns
        (Scanned host true 4 (scan_posted true 4 (driver Request.idle)))
        (request_work host config (scan_posted true 4 (driver Request.idle)))
request_work-mgmt_scan_example = request_work-mgmt_scan host config true 4 (driver Request.idle)

abbrev another : ConnectRequest
another = record {
  ssid = 67 ∷ 68 ∷ 69 ∷ [];
  ssid_length = 3;
  psk = 100 ∷ [];
  psk_length = 1;
  security = Security.psk;
  channel = 1;
}

another-Fits : Fits stored another
another-Fits = record {
  ssid_room = omega arith;
  ssid_inside = omega arith;
  psk_room = omega arith;
  psk_inside = omega arith;
}

join_attempts-IsOverlapped_example :
    Returns (IsOverlapped idle_host wanted another 2 3 (driver Request.connect)) (
      (join_request idle_host stored stored.security >>= λ n.
      join_attempts idle_host 2 n (pos 1) >>= λ rv. pure (n, rv))
        (driver Request.connect))
join_attempts-IsOverlapped_example =
    join_attempts-IsOverlapped idle_host wanted another (driver Request.connect) blank stored-Holds
      another-Fits 2 3 (inr (inr refl))
