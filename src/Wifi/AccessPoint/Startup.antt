-- ===== src/Wifi/AccessPoint/Startup.antt =====
-- What `zephyr_cyw43_enable_ap` leaves on each path through the setup of the DHCP server.
use zephyr_cyw43_driver.Prelude.{
  ℕ, ◌≡◌, ◌⊎◌, arith, sym, true, false, List, ◌∷◌, if◌then◌else◌, ◌==◌, some,
}
use mathlib.Core.Path.{subst}
use zephyr_cyw43_driver.Prelude.Int.{ℤ, pos, is_zero}
use zephyr_cyw43_driver.Prelude.Fault.{
  M, pure, Returns, Returns-bind, Returns-weaken, Returns-both, ◌>>◌,
}
use zephyr_cyw43_driver.Wifi.Platform.{Platform, Config, Network, Call}
use zephyr_cyw43_driver.Wifi.Device.{Driver, perform}
use zephyr_cyw43_driver.Wifi.Join.{join_request}
use zephyr_cyw43_driver.Wifi.Join.Outcome.{IsTerminated, Asks, join_request-Asks}
use zephyr_cyw43_driver.Wifi.AccessPoint.{configure_ap, start_dhcp_server, enable_ap}

-- The log once the network `n` was set up, with a password unless it is open.
abbrev pub configured : Platform → Network → List Call → List Call
configured p n l =
    let named : List Call = Call.wifi_ap_set_ssid n.ssid_len n.ssid ∷ Call.lock ∷ l in
    let keyed : List Call =
      if n.auth_type == p.auth_open
      then named
      else Call.wifi_ap_set_password n.key_len n.key ∷ named in
    Call.wifi_set_up p.itf_ap true
    ∷ Call.unlock
    ∷ Call.wifi_ap_set_auth n.auth_type
    ∷ Call.wifi_ap_set_channel n.channel
    ∷ keyed

-- What follows the setup of the radio, from the log `l`.
abbrev pub Served : Platform → Config → List Call → List Call → Type 0
Served p c l l' =
    let address : List Call = Call.addr_pton_address ∷ l in
    let netmask : List Call = Call.addr_pton_netmask ∷ address in
    let added : List Call = Call.ipv4_addr_add ∷ netmask in
    ((c.ap_auto_dhcpv4 ≡ false) × (l' ≡ Call.dormant_off ∷ l))
    ⊎ ((c.ap_auto_dhcpv4 ≡ true) × (is_zero (p.ret address) ≡ false) × (l' ≡ address))
    ⊎ ((c.ap_auto_dhcpv4 ≡ true)
        × (is_zero (p.ret address) ≡ true)
        × (is_zero (p.ret netmask) ≡ false)
        × (l' ≡ netmask))
    ⊎ ((c.ap_auto_dhcpv4 ≡ true)
        × (is_zero (p.ret netmask) ≡ true)
        × (is_zero (p.ret added) ≡ true)
        × (l' ≡ added))
    ⊎ ((c.ap_auto_dhcpv4 ≡ true)
        × (is_zero (p.ret added) ≡ false)
        × (l' ≡ Call.dhcpv4_server_start ∷ Call.dormant_off ∷ Call.ipv4_set_netmask ∷ added))

module _ (p : Platform) (c : Config) (s : Driver) where
  pub record IsServing (rv : ℤ) (s' : Driver) : Type 0 where
    pub n : Network
    pub asks : Asks s.dev.ap_params n
    pub same_dev : s'.dev ≡ s.dev
    pub code : rv ≡ pos 0
    pub served : Served p c (configured p n s.log) s'.log

  configure_ap_lem :
      (n : Network) → configure_ap p n s ≡ some (tt, record s { log = configured p n s.log })
  unfolding configure_ap
  configure_ap_lem n = ground arith

  -- The part of `zephyr_cyw43_enable_ap` behind the setup of the radio.
  abbrev start_serving : M Driver ℤ
  start_serving = elim c.ap_auto_dhcpv4 [
    | false ↦ (do perform Call.dormant_off; pure (pos 0))
    | true ↦ start_dhcp_server p
  ]

  abbrev Started : List Call → ℤ → Driver → Type 0
  Started l rv s' = (s'.dev ≡ s.dev) × (rv ≡ pos 0) × Served p c l s'.log

  start_serving-Served :
      (l : List Call) → Returns (Started l) (start_serving (record s { log = l }))
  unfolding start_dhcp_server
  start_serving-Served l = ground arith

  configure_ap-IsServing :
      (Q : Network → Type 0) (n : Network)
      → Asks s.dev.ap_params n
      → Q n
      → Returns (λ rv s'. (i : IsServing rv s') × Q (i.n)) ((configure_ap p n >> start_serving) s)
  configure_ap-IsServing Q n asks q =
      rw (configure_ap_lem n, ◌>>◌)
        (Returns-weaken (Started (configured p n s.log)) (λ rv s'. (i : IsServing rv s') × Q (i.n))
          (start_serving (record s { log = configured p n s.log }))
          (start_serving-Served (configured p n s.log))
          (λ rv s' h. (record { n = n; asks = asks; same_dev = h.0; code = h.1; served = h.2 }, q)))

  -- `zephyr_cyw43_enable_ap` sets up the network that its switch computes.
  pub enable_ap-network :
      (Q : Network → Type 0) (ssid_len key_len : ℕ)
      → IsTerminated s.dev.ap_params ssid_len key_len
      → Returns (λ n t. Q n × (t ≡ s)) (join_request p s.dev.ap_params s.dev.ap_params.security s)
      → Returns (λ rv s'. (i : IsServing rv s') × Q (i.n)) (enable_ap p c s)
  unfolding enable_ap
  enable_ap-network Q a b h q =
      Returns-bind (λ n t. (Asks s.dev.ap_params n × (t ≡ s)) × (Q n × (t ≡ s)))
        (λ rv s'. (i : IsServing rv s') × Q (i.n))
        (join_request p s.dev.ap_params s.dev.ap_params.security) _ s
        (Returns-both _ _ _ (join_request-Asks p _ _ a b s h) q)
        λ n t asked.
          subst
            (λ x.
              Returns (λ rv s'. (i : IsServing rv s') × Q (i.n))
                ((configure_ap p n >> start_serving) x))
            (sym asked.0.1) (configure_ap-IsServing Q n asked.0.0 asked.1.0)

  -- For terminated credentials `zephyr_cyw43_enable_ap` always returns 0 and keeps the device. It
  -- sets the radio up under the lock, with the SSID and the key that were stored; then, if the
  -- DHCP server is configured, it stops at the first failure on the way there, with the interface
  -- still dormant, and otherwise makes the interface active.
  enable_ap_lem :
      (ssid_len key_len : ℕ)
      → IsTerminated s.dev.ap_params ssid_len key_len
      → Returns IsServing (enable_ap p c s)
  enable_ap_lem a b h =
      Returns-weaken _ IsServing (enable_ap p c s)
        (enable_ap-network (Asks s.dev.ap_params) a b h (join_request-Asks p _ _ a b s h))
        (λ rv s' r. r.0)
