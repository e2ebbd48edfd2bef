-- ===== src/Wifi/Work/Connecting.antt =====
-- A connection from the request to the call of the library, through the work item.
use zephyr_cyw43_driver.Prelude.{
  ◌≡◌, arith, refl, sym, ap, ◌∙◌, false, some, Option-cases, inl, inr, ◌∷◌,
}
use mathlib.Core.Path.{subst}
use zephyr_cyw43_driver.Prelude.Int.{ℤ, pos}
use zephyr_cyw43_driver.Prelude.Fault.{Returns, Returns-bind}
use zephyr_cyw43_driver.Wifi.Platform.{Platform, Config, Call}
use zephyr_cyw43_driver.Wifi.Device.{Driver, Device, Request, ConnectParams, is_up, perform}
use zephyr_cyw43_driver.Wifi.Join.{connect}
use zephyr_cyw43_driver.Wifi.Join.Outcome.{IsConnected, connect-network}
use zephyr_cyw43_driver.Wifi.Mgmt.{ConnectRequest, mgmt_connect}
use zephyr_cyw43_driver.Wifi.Mgmt.Guards.{
  Fits, Holds, ConnectStored, asked, station_linked, mgmt_connect_lem,
}
use zephyr_cyw43_driver.Wifi.Mgmt.Credentials.{Carries, IsKnown, join_request-Carries}
use zephyr_cyw43_driver.Wifi.Work.{serve, request_work}

module _ (p : Platform) (c : Config) (params : ConnectRequest) where
  -- What the work item leaves: `zephyr_cyw43_connect` ran from `t` on a network that carries the
  -- request, and its result was reported last.
  pub record IsServed (t : Driver) (done : Unit {0}) (u : Driver) : Type 0 where
    pub rv : ℤ
    pub w : Driver
    pub connected : IsConnected p c t rv w
    pub carries : Carries p params (connected.n)
    pub reported : u ≡ record w { log = Call.connect_result_event rv ∷ w.log }

  connect-Carries :
      (old : ConnectParams) (t : Driver)
      → Holds old params t.dev.connect_params
      → IsKnown params.security
      → Returns (λ rv w. (i : IsConnected p c t rv w) × Carries p params (i.n)) (connect p c t)
  connect-Carries old t h known =
      connect-network p c (Carries p params) t _ _ (record { ssid = h.ssid_len; key = h.psk_len })
        (join_request-Carries p old t.dev.connect_params params t h known)

  serve-IsServed :
      (old : ConnectParams) (t : Driver)
      → Holds old params t.dev.connect_params
      → IsKnown params.security
      → t.dev.req ≡ Request.connect
      → Returns (IsServed t) (request_work p c t)
  unfolding request_work serve
  serve-IsServed old t h known asks =
      subst (λ r. Returns (IsServed t) (serve p c r t)) (sym asks)
        (Returns-bind (λ rv w. (i : IsConnected p c t rv w) × Carries p params (i.n)) (IsServed t)
          (connect p c) (λ err. perform (Call.connect_result_event err)) t
          (connect-Carries old t h known)
          (λ rv w r. record { rv = rv; w = w; connected = r.0; carries = r.1; reported = refl }))

  -- Where neither guard holds, the request is stored and posted.
  pub Stored-mgmt_connect :
      (s : Driver)
      → Fits s.dev.connect_params params
      → station_linked p s.log ≡ false
      → is_up (p.itf_state (asked p s.log)) p.itf_ap ≡ false
      → (t : Driver) × (mgmt_connect p params s ≡ some (pos 0, t))
        × ConnectStored p params s (asked p s.log) t
  Stored-mgmt_connect s fits apart down = elim (Option-cases (mgmt_connect p params s)) [
    | inl e ↦ absurd (subst (Returns _) e (mgmt_connect_lem p params s fits))
    | inr ((rv, t), e) ↦ elim (subst (Returns _) e (mgmt_connect_lem p params s fits)) [
      | inl linked ↦ absurd (ground (arith, linked.0, apart))
      | inr (inl up) ↦ absurd (ground (arith, up.1, down))
      | inr (inr done) ↦ (t, e ∙ ap (λ x. some (x, t)) (done.2), done.3)
    ]
  ]

  -- A request to connect that fits the buffers and has a known security type, while the station is
  -- not linked and the access point not up, is accepted. Where the work item then runs on it, it
  -- returns. If it connects, the join that the library accepted was for the network that the
  -- request names, with its key, security and channel. Either way the result is reported last.
  pub request_work-mgmt_connect :
      (s : Driver)
      → Fits s.dev.connect_params params
      → IsKnown params.security
      → station_linked p s.log ≡ false
      → is_up (p.itf_state (asked p s.log)) p.itf_ap ≡ false
      → (t : Driver) × (mgmt_connect p params s ≡ some (pos 0, t))
        × Returns (IsServed t) (request_work p c t)
  request_work-mgmt_connect s fits known apart down =
      let (t, runs, stored) = Stored-mgmt_connect s fits apart down in
      let kept : Holds s.dev.connect_params params t.dev.connect_params =
        subst (Holds s.dev.connect_params params)
          (sym (ap (λ (d : Device). d.connect_params) stored.dev)) stored.holds in
      (
        t,
        runs,
        serve-IsServed s.dev.connect_params t kept known (ap (λ (d : Device). d.req) stored.dev),
      )
