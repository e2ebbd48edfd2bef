-- ===== src/App.antt =====
-- The demo application, app/src/main.c: it joins the network of its configuration.
pub mod Texts
pub mod Joined
mod Tests
use zephyr_cyw43_driver.Prelude.{
  ℕ, Bool, true, false, not, ◌&&◌, suc, List, [], ◌∷◌, Option, none, some,
}
use zephyr_cyw43_driver.Prelude.Int.{ℤ, pos}
use zephyr_cyw43_driver.Prelude.Fault.{M, ◌>>=◌, ◌>>◌, pure, fault}
use zephyr_cyw43_driver.Prelude.Text.{strlen}
use zephyr_cyw43_driver.Wifi.Platform.{Security}
use zephyr_cyw43_driver.Wifi.Mgmt.{ConnectRequest}

-- `net_mgmt` hands the request to the driver's management operation.
pub data AppCall : Type 0 where
  sleep : (seconds : ℕ) → AppCall
  net_mgmt_connect : ConnectRequest → AppCall
  net_config_init_app : AppCall

abbrev pub perform : AppCall → M (List AppCall) (Unit {0})
perform c l = some (tt, c ∷ l)

abbrev pub checked : {A : Type 0} → Option A → M (List AppCall) A
checked none l = none
checked (some a) l = some (a, l)

unfoldable pub wifi_connect : (ssid passwd : List ℕ) → M (List AppCall) (Unit {0})
wifi_connect ssid passwd = do
  ssid_length ← checked (strlen ssid)
  psk_length ← checked (strlen passwd)
  perform (
      net_mgmt_connect (record {
        ssid = ssid;
        ssid_length = ssid_length;
        psk = passwd;
        psk_length = psk_length;
        security = Security.psk;
        channel = 0;
      }))

-- `strcmp(text, "")`, as a condition
abbrev pub nonempty : List ℕ → Bool
nonempty (suc c ∷ text) = true
nonempty _ = false

-- The two texts are CONFIG_WIFI_SSID and CONFIG_WIFI_PSK, with their terminators.
unfoldable pub main : (ssid psk : List ℕ) → M (List AppCall) ℤ
unfolding wifi_connect
main ssid psk = do
  elim (nonempty ssid && nonempty psk) [
    | true ↦ (do perform (sleep 1); wifi_connect ssid psk)
    | false ↦ pure tt
  ]
  perform net_config_init_app
  pure (pos 0)
