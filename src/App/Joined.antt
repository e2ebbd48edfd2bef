-- ===== src/App/Joined.antt =====
-- From the application's configuration to the call of the library, through the whole driver.
use zephyr_cyw43_driver.Prelude.{
  ℕ, ◌<◌, ◌≡◌, ◌∙◌, arith, refl, inr, false, List, [], ◌∷◌, ◌++◌, replicate, ap, some,
}
use zephyr_cyw43_driver.Prelude.Int.{pos}
use zephyr_cyw43_driver.Prelude.Fault.{Returns, Returns-weaken}
use zephyr_cyw43_driver.Prelude.Text.{strlen, text_of}
use zephyr_cyw43_driver.Wifi.Platform.{Platform, Config, Security}
use zephyr_cyw43_driver.Wifi.Device.{Driver, is_up}
use zephyr_cyw43_driver.Wifi.Counts.{networks}
use zephyr_cyw43_driver.Wifi.Mgmt.{ConnectRequest, mgmt_connect}
use zephyr_cyw43_driver.Wifi.Mgmt.Guards.{Fits, station_linked, asked}
use zephyr_cyw43_driver.Wifi.Work.{request_work}
use zephyr_cyw43_driver.Wifi.Work.Connecting.{IsServed, request_work-mgmt_connect}
use zephyr_cyw43_driver.Wifi.Safe.Entries.{Reads}
use zephyr_cyw43_driver.Wifi.Safe.Requests.{FitsDevice, Fits-FitsDevice}
use zephyr_cyw43_driver.Wifi.System.{System, Event, Runs}
use zephyr_cyw43_driver.Wifi.System.Reached.{Inv, Inv-Runs}
use zephyr_cyw43_driver.App.{AppCall, wifi_connect, main}
use zephyr_cyw43_driver.App.Texts.{strlen-length, text_of-take, nonempty-strlen}

-- The request that the application makes of a name and a passphrase of `n` and `k` bytes.
abbrev pub asked_for : (ssid psk : List ℕ) → (n k : ℕ) → ConnectRequest
asked_for ssid psk n k = record {
  ssid = ssid;
  ssid_length = n;
  psk = psk;
  psk_length = k;
  security = Security.psk;
  channel = 0;
}

module _ (ssid psk : List ℕ) (n k : ℕ) (named : strlen ssid ≡ some n)
    (keyed : strlen psk ≡ some k) where
  -- With a name and a passphrase set, `main` asks the driver for one join, and then for the network.
  main_lem :
      0 < n
      → 0 < k
      → main ssid psk []
        ≡ some (
          pos 0,
          AppCall.net_config_init_app
              ∷ AppCall.net_mgmt_connect (asked_for ssid psk n k)
              ∷ AppCall.sleep 1
              ∷ [],
        )
  unfolding main wifi_connect
  main_lem some_ssid some_psk =
      rw
        (nonempty-strlen ssid n named some_ssid, nonempty-strlen psk k keyed some_psk, named, keyed)
        refl

  FitsDevice-asked_for : n < 33 → k < 65 → FitsDevice (asked_for ssid psk n k)
  FitsDevice-asked_for b d = record {
    ssid_room = b;
    ssid_inside = omega (arith, strlen-length ssid n named);
    psk_room = d;
    psk_inside = omega (arith, strlen-length psk k keyed);
  }

  -- What the work item made of the application's request: it is served, and the network that the
  -- library was asked for has the name and the passphrase that were configured.
  pub record IsJoined (p : Platform) (c : Config) (t : Driver) (done : Unit {0}) (u : Driver)
      : Type 0 where
    pub served : IsServed p c (asked_for ssid psk n k) t done u
    pub name : text_of served.connected.n.ssid ≡ text_of ssid
    pub key : text_of served.connected.n.key ≡ text_of psk
    pub asked :
        networks u.log ≡ replicate served.connected.attempts served.connected.n ++ networks t.log

  IsJoined-IsServed :
      (p : Platform) (c : Config) (t : Driver) (done : Unit {0}) (u : Driver)
      → IsServed p c (asked_for ssid psk n k) t done u
      → IsJoined p c t done u
  IsJoined-IsServed p c t done u v = record {
    served = v;
    name = v.carries.ssid ∙ text_of-take ssid n named;
    key = v.carries.key ∙ text_of-take psk k keyed;
    asked = ap (λ (d : Driver). networks d.log) v.reported ∙ v.connected.tried;
  }

  -- With a name of 1 to 32 bytes and a passphrase of 1 to 64 configured, `main` asks the driver once
  -- to join. In every state that the driver reaches from power-on with its station not linked and
  -- its access point down, that request is accepted, and the work item that it submits ends. It
  -- asks the library one to five times to join, each time the configured network with the
  -- configured passphrase, and reports the result.
  pub main-IsJoined :
      (p : Platform) (c : Config) (frame_size : ℕ) (es : List Event) (s : System)
      → 0 < n
      → n < 33
      → 0 < k
      → k < 65
      → Reads p
      → Runs p c frame_size es s
      → station_linked p s.driver.log ≡ false
      → is_up (p.itf_state (asked p s.driver.log)) p.itf_ap ≡ false
      → (main ssid psk []
          ≡ some (
            pos 0,
            AppCall.net_config_init_app
                ∷ AppCall.net_mgmt_connect (asked_for ssid psk n k)
                ∷ AppCall.sleep 1
                ∷ [],
          ))
        × (t : Driver) × (mgmt_connect p (asked_for ssid psk n k) s.driver ≡ some (pos 0, t))
        × Returns (IsJoined p c t) (request_work p c t)
  main-IsJoined p c frame_size es s some_ssid ssid_fits some_psk psk_fits reads runs apart down =
      let i : Inv frame_size es s = Inv-Runs p c frame_size es s reads runs in
      let fits : Fits s.driver.dev.connect_params (asked_for ssid psk n k) =
        Fits-FitsDevice s.driver.dev.connect_params (asked_for ssid psk n k) (i.form.station)
          (FitsDevice-asked_for ssid_fits psk_fits) in
      let (t, accepted, served) =
        request_work-mgmt_connect p c (asked_for ssid psk n k) s.driver fits (inr (inr refl)) apart
          down in
      (
        main_lem some_ssid some_psk,
        t,
        accepted,
        Returns-weaken (IsServed p c (asked_for ssid psk n k) t) (IsJoined p c t)
            (request_work p c t) served (IsJoined-IsServed p c t),
      )
