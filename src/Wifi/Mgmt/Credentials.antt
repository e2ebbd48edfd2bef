-- ===== src/Wifi/Mgmt/Credentials.antt =====
-- From a request to connect to the call of `cyw43_wifi_join`: the credentials survive the copy.
use zephyr_cyw43_driver.Prelude.{ℕ, ◌≡◌, ◌⊎◌, arith, length, take, ◌==◌, if◌then◌else◌, List}
use zephyr_cyw43_driver.Prelude.Fault.{Returns}
use zephyr_cyw43_driver.Prelude.Text.{text_of}
use zephyr_cyw43_driver.Wifi.Platform.{Platform, Network, Security, no_security, wpa_psk, psk}
use zephyr_cyw43_driver.Wifi.Device.{Driver, ConnectParams}
use zephyr_cyw43_driver.Wifi.Join.{join_request}
use zephyr_cyw43_driver.Wifi.Mgmt.{ConnectRequest}
use zephyr_cyw43_driver.Wifi.Mgmt.Guards.{Holds}

-- The SSID and the key of a request, cut at the given lengths and at a NUL.
abbrev pub wanted_ssid : ConnectRequest → List ℕ
wanted_ssid params = text_of (take params.ssid_length params.ssid)

abbrev pub wanted_psk : ConnectRequest → List ℕ
wanted_psk params = text_of (take params.psk_length params.psk)

-- What a network of the security `x` is joined with: the length of its key, the authentication.
abbrev pub Method : Platform → ConnectRequest → Security → Network → Type 0
Method p params no_security n = (n.key_len ≡ 0) × (n.auth_type ≡ p.auth_open)
Method p params wpa_psk n =
    (n.key_len ≡ length (wanted_psk params)) × (n.auth_type ≡ p.auth_wpa_tkip_psk)
Method p params psk n =
    (n.key_len ≡ length (wanted_psk params)) × (n.auth_type ≡ p.auth_wpa2_aes_psk)
Method p params _ n = ⊥

-- The network that is asked for carries the request's SSID, key, channel and security.
pub record Carries (p : Platform) (params : ConnectRequest) (n : Network) : Type 0 where
  pub ssid : text_of n.ssid ≡ wanted_ssid params
  pub ssid_len : n.ssid_len ≡ length (wanted_ssid params)
  pub key : text_of n.key ≡ wanted_psk params
  pub method : Method p params params.security n
  pub channel : n.channel ≡ (if params.channel == 0 then p.channel_none else params.channel)

-- The three security types that the switch of `zephyr_cyw43_connect` knows.
abbrev pub IsKnown : Security → Type 0
IsKnown x = (x ≡ no_security) ⊎ (x ≡ wpa_psk) ⊎ (x ≡ psk)

-- Where the parameters of a request with a known security type were stored, the switch of
-- `zephyr_cyw43_connect` computes from them the request's own SSID with its length, its key with
-- its length (0 for an open network), its authentication and its channel.
pub join_request-Carries :
    (p : Platform) (old new : ConnectParams) (params : ConnectRequest) (s : Driver)
    → Holds old params new
    → IsKnown params.security
    → Returns (λ n s'. Carries p params n × (s' ≡ s)) (join_request p new new.security s)
unfolding join_request
join_request-Carries p old new params s h k = ground arith
