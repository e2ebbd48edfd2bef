-- ===== src/App/Tests.antt =====
-- The network "ab" with the passphrase "cd", and no network.
use zephyr_cyw43_driver.Prelude.{ℕ, ◌≡◌, arith, refl, List, [], ◌∷◌, some}
use zephyr_cyw43_driver.Prelude.Int.{pos}
use zephyr_cyw43_driver.Prelude.Text.{strlen}
use zephyr_cyw43_driver.Wifi.Platform.{Security}
use zephyr_cyw43_driver.Prelude.Fault.{Returns}
use zephyr_cyw43_driver.Wifi.Device.{Driver}
use zephyr_cyw43_driver.Wifi.Mgmt.{mgmt_connect}
use zephyr_cyw43_driver.Wifi.Work.{request_work}
use zephyr_cyw43_driver.Wifi.Tests.Host.{idle_host, config, host-reads}
use zephyr_cyw43_driver.Wifi.Tests.PowerOn.{at_start, Runs-at_start}
use zephyr_cyw43_driver.App.Joined.{asked_for, IsJoined, main-IsJoined}
use zephyr_cyw43_driver.App.{AppCall, wifi_connect, main}

join_run :
    main (0x61 ∷ 0x62 ∷ 0 ∷ []) (0x63 ∷ 0x64 ∷ 0 ∷ []) []
    ≡ some (
      pos 0,
      AppCall.net_config_init_app
          ∷ AppCall.net_mgmt_connect (record {
            ssid = 0x61 ∷ 0x62 ∷ 0 ∷ [];
            ssid_length = 2;
            psk = 0x63 ∷ 0x64 ∷ 0 ∷ [];
            psk_length = 2;
            security = Security.psk;
            channel = 0;
          })
          ∷ AppCall.sleep 1
          ∷ [],
    )
unfolding main wifi_connect strlen
join_run = refl

no_network_run : main (0 ∷ []) (0x63 ∷ 0 ∷ []) [] ≡ some (pos 0, AppCall.net_config_init_app ∷ [])
unfolding main
no_network_run = refl

abbrev name : List ℕ
name = 0x61 ∷ 0x62 ∷ 0 ∷ []

abbrev key : List ℕ
key = 0x63 ∷ 0x64 ∷ 0 ∷ []

name-length : strlen name ≡ some 2
unfolding strlen
name-length = refl

key-length : strlen key ≡ some 2
unfolding strlen
key-length = refl

main-IsJoined_example :
    (main name key []
      ≡ some (
        pos 0,
        AppCall.net_config_init_app
            ∷ AppCall.net_mgmt_connect (asked_for name key 2 2)
            ∷ AppCall.sleep 1
            ∷ [],
      ))
    × (t : Driver) × (mgmt_connect idle_host (asked_for name key 2 2) at_start.driver
        ≡ some (pos 0, t))
    × Returns
        (IsJoined name key 2 2 name-length key-length idle_host config t)
        (request_work idle_host config t)
main-IsJoined_example =
    main-IsJoined name key 2 2 name-length key-length idle_host config 64 [] at_start (omega arith)
      (omega arith) (omega arith) (omega arith) host-reads Runs-at_start refl refl
