-- ===== src/Wifi/Work/Hosting.antt =====
-- An access point from the request to the calls of the library, through the work item.
use zephyr_cyw43_driver.Prelude.Int.{ℤ}
use zephyr_cyw43_driver.Wifi.Platform.{Platform, Config}
use zephyr_cyw43_driver.Wifi.Device.{Driver, Device}
use zephyr_cyw43_driver.Wifi.AccessPoint.Startup.{IsServing}
use zephyr_cyw43_driver.Wifi.Mgmt.{ConnectRequest}
use zephyr_cyw43_driver.Wifi.Mgmt.Credentials.{Carries}

module _ (p : Platform) (c : Config) (params : ConnectRequest) where
  -- What the work item leaves: `zephyr_cyw43_enable_ap` ran from `t` on a network that carries the
  -- request.
  pub record IsHosted (t : Driver) (done : Unit {0}) (u : Driver) : Type 0 where
    pub rv : ℤ
    pub serving : IsServing p c t rv u
    pub carries : Carries p params (serving.n)
