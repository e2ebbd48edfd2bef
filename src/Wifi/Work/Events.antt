-- ===== src/Wifi/Work/Events.antt =====
-- How often the end of a connection or a disconnection is reported.
use zephyr_cyw43_driver.Prelude.{◌+◌, ◌≡◌, ◌∷◌, ◌&&◌, not, if◌then◌else◌, List}
use zephyr_cyw43_driver.Prelude.Int.{ℤ, is_zero}
use zephyr_cyw43_driver.Wifi.Platform.{Platform, Config, Call, connect_result_event}
use zephyr_cyw43_driver.Wifi.Device.{Driver}
use zephyr_cyw43_driver.Wifi.Counts.{connect_events}

module _ (p : Platform) (c : Config) (s : Driver) where
  -- The last call reports `rv`; before it the result was reported once more, if the network was
  -- joined and DHCP is not started automatically. The device is as it was.
  abbrev pub Reported : Unit {0} → Driver → Type 0
  Reported _ s' =
      (rv : ℤ) × (l : List Call) × (s'.log ≡ connect_result_event rv ∷ l)
      × (connect_events l
          ≡ (if is_zero rv && not c.sta_auto_dhcpv4 then 1 else 0) + connect_events s.log)
      × (s'.dev ≡ s.dev)
