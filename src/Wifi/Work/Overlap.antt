-- ===== src/Wifi/Work/Overlap.antt =====
-- A second request to connect while the work item is still at the first. `zephyr_cyw43_connect`
-- measures the stored texts once, but hands their addresses to each attempt, and holds no lock.
use zephyr_cyw43_driver.Prelude.{
  ℕ, ◌+◌, ◌<◌, ◌∙◌, ◌≡◌, ◌⊎◌, refl, sym, ap, true, false, some, length, ◌++◌, replicate, Bool-cases,
  Option-cases, inl, inr,
}
use mathlib.Core.Path.{subst}
use zephyr_cyw43_driver.Prelude.Int.{ℤ, pos, is_zero}
use zephyr_cyw43_driver.Prelude.Fault.{
  ◌>>=◌, pure, Returns, Returns-bind, Returns-both, Returns-weaken,
}
use zephyr_cyw43_driver.Prelude.Text.{text_of}
use zephyr_cyw43_driver.Wifi.Platform.{Platform, Network}
use zephyr_cyw43_driver.Wifi.Device.{Driver, Device, ConnectParams, is_up}
use zephyr_cyw43_driver.Wifi.Counts.{networks}
use zephyr_cyw43_driver.Wifi.Join.{at_hand, join_request, join_attempts}
use zephyr_cyw43_driver.Wifi.Join.Attempts.{IsJoined, join_attempts-IsJoined, join_attempts-add}
use zephyr_cyw43_driver.Wifi.Join.Outcome.{Asks, at_hand-Asks, join_request-Asks}
use zephyr_cyw43_driver.Wifi.Mgmt.{ConnectRequest, mgmt_connect}
use zephyr_cyw43_driver.Wifi.Mgmt.Guards.{
  Fits, Holds, ConnectStored, asked, station_linked, mgmt_connect_lem,
}
use zephyr_cyw43_driver.Wifi.Mgmt.Credentials.{
  Carries, IsKnown, wanted_ssid, wanted_psk, join_request-Carries,
}

-- An attempt that takes its lengths and its method from one request and its texts from another.
pub record IsMixed (first second : ConnectRequest) (n n' : Network) : Type 0 where
  pub ssid_len : n'.ssid_len ≡ length (wanted_ssid first)
  pub ssid : text_of n'.ssid ≡ wanted_ssid second
  pub key_len : n'.key_len ≡ n.key_len
  pub key : text_of n'.key ≡ wanted_psk second
  pub auth_type : n'.auth_type ≡ n.auth_type
  pub channel : n'.channel ≡ n.channel

module _ (p : Platform) (first second : ConnectRequest) where
  -- What `j` attempts for `n` leave from `t` on: each of them was for one mixed network.
  pub record IsResumed (j : ℕ) (n : Network) (t : Driver) (rv : ℤ) (w : Driver) : Type 0 where
    pub n' : Network
    pub mixed : IsMixed first second n n'
    pub attempts : ℕ
    pub some_attempt : 0 < j → 0 < attempts
    pub tried : networks w.log ≡ replicate attempts n' ++ networks t.log

  -- What the second request makes of the last `j` attempts, at the state `u`: it is refused, as
  -- the station is linked or the access point up, or it is accepted, and they go on from there.
  abbrev pub Interrupted : ℕ → Network → ℤ → Driver → Type 0
  Interrupted j n rv u =
      (station_linked p u.log ≡ true)
      ⊎ (is_up (p.itf_state (asked p u.log)) p.itf_ap ≡ true)
      ⊎ ((t : Driver) × (mgmt_connect p second u ≡ some (pos 0, t))
          × Returns (IsResumed j n t) (join_attempts p j n rv t))

  -- What the first `i` attempts leave, for the network and with the code `r`, and what can follow.
  pub record IsOverlapped (i j : ℕ) (s : Driver) (r : Network × ℤ) (u : Driver) : Type 0 where
    pub carries : Carries p first (r.0)
    pub attempts : ℕ
    pub some_attempt : 0 < i → 0 < attempts
    pub tried : networks u.log ≡ replicate attempts (r.0) ++ networks s.log
    pub next :
        (is_zero (r.1) ≡ true)
        ⊎ ((join_attempts p (i + j) (r.0) (pos 1) s ≡ join_attempts p j (r.0) (r.1) u)
            × Interrupted j (r.0) (r.1) u)

  IsResumed-Stored :
      (j : ℕ) (n : Network) (rv : ℤ) (u t : Driver)
      → Carries p first n
      → Holds u.dev.connect_params second t.dev.connect_params
      → is_zero rv ≡ false
      → Returns (IsResumed j n t) (join_attempts p j n rv t)
  IsResumed-Stored j n rv u t carries held failed =
      let n' : Network = at_hand n t.dev.connect_params in
      Returns-weaken (IsJoined p n' j t) (IsResumed j n t) (join_attempts p j n rv t)
        (join_attempts-IsJoined p n' n j rv t refl failed)
        (λ rv' w joined. record {
          n' = n';
          mixed = record {
            ssid_len = carries.ssid_len;
            ssid = held.ssid;
            key_len = refl;
            key = held.psk;
            auth_type = refl;
            channel = refl;
          };
          attempts = joined.attempts;
          some_attempt = joined.some_attempt;
          tried = joined.tried;
        })

  mgmt_connect-Interrupted :
      (j : ℕ) (n : Network) (rv : ℤ) (u : Driver)
      → Carries p first n
      → Fits u.dev.connect_params second
      → is_zero rv ≡ false
      → Interrupted j n rv u
  mgmt_connect-Interrupted j n rv u carries fits failed =
      elim (Option-cases (mgmt_connect p second u)) [
        | inl e ↦ absurd (subst (Returns _) e (mgmt_connect_lem p second u fits))
        | inr ((rv', t), e) ↦ elim (subst (Returns _) e (mgmt_connect_lem p second u fits)) [
          | inl linked ↦ inl (linked.0)
          | inr (inl up) ↦ inr (inl (up.1))
          | inr (inr done) ↦
              let stored : ConnectStored p second u (asked p u.log) t = done.3 in
              inr (
                inr (
                  t,
                  e ∙ ap (λ x. some (x, t)) (done.2),
                  IsResumed-Stored j n rv u t carries
                      (subst (Holds u.dev.connect_params second)
                        (sym (ap (λ (d : Device). d.connect_params) stored.dev)) stored.holds)
                      failed,
                ))
        ]
      ]

  module _ (s : Driver) (old : ConnectParams) (held : Holds old first s.dev.connect_params)
      (fits : Fits s.dev.connect_params second) where
    IsOverlapped-IsJoined :
        (i j : ℕ) (n : Network)
        → Carries p first n
        → Asks s.dev.connect_params n
        → Returns (λ rv u. IsOverlapped i j s (n, rv) u) (join_attempts p i n (pos 1) s)
    IsOverlapped-IsJoined i j n carries asks =
        Returns-weaken _ (λ rv u. IsOverlapped i j s (n, rv) u) (join_attempts p i n (pos 1) s)
          (Returns-both _ _ _
            (join_attempts-IsJoined p n n i (pos 1) s (at_hand-Asks _ n asks) refl)
            (join_attempts-add p n i j (pos 1) s))
          (λ rv u h. record {
            carries = carries;
            attempts = (h.0).attempts;
            some_attempt = (h.0).some_attempt;
            tried = (h.0).tried;
            next = elim (Bool-cases (is_zero rv)) [
              | inl done ↦ inl done
              | inr failed ↦ elim (h.1) [
                | inl done ↦ inl done
                | inr resumes ↦ inr (
                  resumes,
                  mgmt_connect-Interrupted j n rv u carries
                      (subst (λ (d : Device). Fits d.connect_params second) (sym (h.0).same_dev)
                        fits)
                      failed,
                )
              ]
            ];
          })

    -- `zephyr_cyw43_connect` serves a first request of a known security type, which the device
    -- holds, and a second request that fits the buffers arrives behind `i` of its attempts. Each of
    -- these was for the network of the first request. If none of them succeeded, the loop goes on for `j` more attempts from
    -- the state they leave, and unless the station is linked or the access point up there, the
    -- second request is accepted. Each attempt behind it then has the SSID and the key of the
    -- second request, but the length of the first one's SSID, and its key length, authentication
    -- and channel.
    pub join_attempts-IsOverlapped :
        (i j : ℕ)
        → IsKnown first.security
        → let d : ConnectParams = s.dev.connect_params in
          Returns (IsOverlapped i j s) (
            (join_request p d d.security >>= λ n.
            join_attempts p i n (pos 1) >>= λ rv. pure (n, rv))
              s)
    join_attempts-IsOverlapped i j known =
        let d : ConnectParams = s.dev.connect_params in
        Returns-bind (λ n t. (Carries p first n × (t ≡ s)) × (Asks d n × (t ≡ s)))
          (IsOverlapped i j s) (join_request p d d.security) _ s
          (Returns-both _ _ _ (join_request-Carries p old d first s held known) (
            join_request-Asks p d d.security _ _ s
              (record { ssid = held.ssid_len; key = held.psk_len })))
          (λ n t asked.
            subst
              (λ x.
                Returns (IsOverlapped i j s)
                  ((join_attempts p i n (pos 1) >>= λ rv. pure (n, rv)) x))
              (sym (asked.0.1))
              (Returns-bind (λ rv u. IsOverlapped i j s (n, rv) u) (IsOverlapped i j s)
                (join_attempts p i n (pos 1)) (λ rv. pure (n, rv)) s
                (IsOverlapped-IsJoined i j n (asked.0.0) (asked.1.0)) (λ rv u h. h)))
