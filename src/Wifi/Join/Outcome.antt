-- ===== src/Wifi/Join/Outcome.antt =====
-- What `zephyr_cyw43_connect` and `zephyr_cyw43_disconnect` return, call and leave behind.
use zephyr_cyw43_driver.Prelude.{
  ℕ, ◌+◌, ◌≤◌, ◌≡◌, ◌⊎◌, arith, refl, sym, ap, ◌∙◌, ◌<◌, ◌++◌, replicate, false, List, ◌∷◌,
  if◌then◌else◌,
}
use zephyr_cyw43_driver.Prelude.{some, Bool-cases, inl, inr}
use mathlib.Core.Path.{subst}
use zephyr_cyw43_driver.Prelude.Int.{ℤ, pos, is_zero}
use zephyr_cyw43_driver.Prelude.Fault.{Returns, Returns-bind, Returns-weaken, Returns-both}
use zephyr_cyw43_driver.Prelude.Text.{strlen}
use zephyr_cyw43_driver.Wifi.Platform.{Platform, Config, Network, Call, Security}
use zephyr_cyw43_driver.Wifi.Platform.{
  dormant_on, dormant_off, dhcpv4_restart, connect_result_event,
}
use zephyr_cyw43_driver.Wifi.Device.{Driver, ConnectParams}
use zephyr_cyw43_driver.Wifi.Counts.{joins, networks, locks, unlocks, connect_events}
use zephyr_cyw43_driver.Wifi.Join.{at_hand, join_request, join_attempts, report_join, connect}
use zephyr_cyw43_driver.Wifi.Join.Attempts.{Succeeded, IsJoined, join_attempts-IsJoined}

-- The SSID and the key are terminated inside their buffers, at these lengths.
pub record IsTerminated (c : ConnectParams) (ssid_len key_len : ℕ) : Type 0 where
  pub ssid : strlen c.ssid ≡ some ssid_len
  pub key : strlen c.psk ≡ some key_len

-- The network asked for takes SSID and key from the parameters.
pub record Asks (c : ConnectParams) (n : Network) : Type 0 where
  pub ssid : n.ssid ≡ c.ssid
  pub key : n.key ≡ c.psk

-- The texts that stand in the parameters are the ones of the network.
pub at_hand-Asks : (c : ConnectParams) (n : Network) → Asks c n → at_hand n c ≡ n
at_hand-Asks c n a =
    ap (λ ssid. record n { ssid = ssid; key = c.psk }) (sym a.ssid)
    ∙ ap (λ key. record n { key = key }) (sym a.key)

pub join_request-Asks :
    (p : Platform) (c : ConnectParams) (x : Security) (a b : ℕ) (s : Driver)
    → IsTerminated c a b
    → Returns (λ n s'. Asks c n × (s' ≡ s)) (join_request p c x s)
unfolding join_request
join_request-Asks p c Security.no_security a b s t = ground arith
join_request-Asks p c x a b s t = ground arith

-- What `zephyr_cyw43_connect` leaves when it returns `rv`.
pub record IsConnected (p : Platform) (c : Config) (s : Driver) (rv : ℤ) (s' : Driver)
    : Type 0 where
  pub n : Network
  pub l : List Call
  pub asks : Asks s.dev.connect_params n
  pub same_dev : s'.dev ≡ s.dev
  pub few : joins l ≤ joins s.log + 5
  pub attempts : ℕ
  pub some_attempt : 0 < attempts
  pub tried : networks s'.log ≡ replicate attempts n ++ networks s.log
  pub same_locks : locks s'.log ≡ locks s.log
  pub same_unlocks : unlocks s'.log ≡ unlocks s.log
  pub same_events : connect_events l ≡ connect_events s.log
  pub result :
      ((rv ≡ pos 0)
        × Succeeded p n l
        × (s'.log
            ≡ (if c.sta_auto_dhcpv4 then dhcpv4_restart else connect_result_event rv)
              ∷ dormant_off
              ∷ l))
      ⊎ ((is_zero rv ≡ false) × (joins l ≡ joins s.log + 5) × (s'.log ≡ dormant_on ∷ l))

module _ (p : Platform) (c : Config) where
  IsConnected-report :
      (s t u : Driver) (n : Network) (rv : ℤ)
      → Asks s.dev.connect_params n
      → t ≡ s
      → IsJoined p n 5 t rv u
      → Returns (λ rv' s'. (i : IsConnected p c s rv' s') × (i.n ≡ n)) (report_join p c rv u)
  unfolding report_join
  IsConnected-report s t u n rv asks e j = elim (Bool-cases (is_zero rv)) [
    | inl done ↦
        rw (done, Returns, report_join)
          (
            record {
              n = n;
              l = u.log;
              asks = asks;
              same_dev = ground arith;
              few = ground arith;
              attempts = j.attempts;
              some_attempt = j.some_attempt (omega arith);
              tried = ground arith;
              same_locks = ground arith;
              same_unlocks = ground arith;
              same_events = ground arith;
              result = ground arith;
            },
            refl,
          )
    | inr failed ↦
        rw (failed, Returns, report_join)
          (
            record {
              n = n;
              l = u.log;
              asks = asks;
              same_dev = ground arith;
              few = ground arith;
              attempts = j.attempts;
              some_attempt = j.some_attempt (omega arith);
              tried = ground arith;
              same_locks = ground arith;
              same_unlocks = ground arith;
              same_events = ground arith;
              result = ground arith;
            },
            refl,
          )
  ]

  -- `zephyr_cyw43_connect` joins the network that its switch computes.
  pub connect-network :
      (Q : Network → Type 0) (s : Driver) (ssid_len key_len : ℕ)
      → IsTerminated s.dev.connect_params ssid_len key_len
      → Returns
          (λ n t. Q n × (t ≡ s))
          (join_request p s.dev.connect_params s.dev.connect_params.security s)
      → Returns (λ rv s'. (i : IsConnected p c s rv s') × Q (i.n)) (connect p c s)
  unfolding connect
  connect-network Q s a b h q =
      Returns-bind (λ n t. (Asks s.dev.connect_params n × (t ≡ s)) × (Q n × (t ≡ s)))
        (λ rv s'. (i : IsConnected p c s rv s') × Q (i.n))
        (join_request p s.dev.connect_params s.dev.connect_params.security) _ s
        (Returns-both _ _ _ (join_request-Asks p _ _ a b s h) q)
        λ n t asked.
          Returns-bind (IsJoined p n 5 t) (λ rv s'. (i : IsConnected p c s rv s') × Q (i.n))
            (join_attempts p 5 n (pos 1)) (report_join p c) t
            (join_attempts-IsJoined p n n 5 (pos 1) t
              (subst (λ (x : Driver). at_hand n x.dev.connect_params ≡ n) (sym asked.0.1)
                (at_hand-Asks _ n asked.0.0))
              refl)
            λ rv u joined.
              Returns-weaken _ _ (report_join p c rv u)
                (IsConnected-report s t u n rv asked.0.0 asked.0.1 joined)
                (λ rv' s' r. (r.0, subst Q (sym r.1) asked.1.0))

  -- For terminated credentials `zephyr_cyw43_connect` always returns, tries to join at most five
  -- times, each time one and the same network with the stored SSID and key, changes neither the device nor the lock, and returns either 0, and then its last
  -- attempt was accepted and found the link up at eight polls in a row, the interface is no longer
  -- dormant, and then DHCP restarts, if configured, or the result is reported; or another code,
  -- and then it made all five attempts and the interface is dormant.
  pub connect-IsConnected :
      (s : Driver) (ssid_len key_len : ℕ)
      → IsTerminated s.dev.connect_params ssid_len key_len
      → Returns (IsConnected p c s) (connect p c s)
  connect-IsConnected s a b h =
      Returns-weaken _ (IsConnected p c s) (connect p c s)
        (connect-network (Asks s.dev.connect_params) s a b h (join_request-Asks p _ _ a b s h))
        (λ rv s' r. r.0)
