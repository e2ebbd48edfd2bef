-- ===== src/Wifi/Work.antt =====
-- `zephyr_cyw43_request_work`, the work item, which runs the request that the device holds.
pub mod Events
pub mod Latest
pub mod Scanning
pub mod Connecting
pub mod Hosting
pub mod Overlap
use zephyr_cyw43_driver.Prelude.{true, false}
use zephyr_cyw43_driver.Prelude.Int.{ℤ}
use zephyr_cyw43_driver.Prelude.Fault.{M, ◌>>=◌, pure, get}
use zephyr_cyw43_driver.Wifi.Platform.{Platform, Config, Call}
use zephyr_cyw43_driver.Wifi.Device.{Driver, Request, perform, invoke}
use zephyr_cyw43_driver.Wifi.Join
use zephyr_cyw43_driver.Wifi.Scan
use zephyr_cyw43_driver.Wifi.AccessPoint

module _ (p : Platform) (c : Config) where
  unfoldable pub set_pm : M Driver ℤ
  set_pm = do s ← get; invoke p (Call.wifi_pm s.dev.pm_out)

  unfoldable pub serve : Request → M Driver (Unit {0})
  serve Request.connect = do err ← Join.connect p c; perform (Call.connect_result_event err)
  serve Request.disconnect = do
    err ← Join.disconnect p c
    perform (Call.disconnect_result_event err)
  serve Request.passive_scan = do err ← Scan.scan p false; pure tt
  serve Request.active_scan = do err ← Scan.scan p true; pure tt
  serve Request.enable_ap = do err ← AccessPoint.enable_ap p c; pure tt
  serve Request.disable_ap = do err ← AccessPoint.disable_ap p c; pure tt
  serve Request.set_pm = do err ← set_pm; pure tt
  serve _ = pure tt

  unfoldable pub request_work : M Driver (Unit {0})
  request_work = do s ← get; serve s.dev.req
