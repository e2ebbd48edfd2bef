-- ===== src/Wifi/AccessPoint/Release.antt =====
-- `zephyr_cyw43_disable_ap` gives the access point's bit of `itf_state` back, and no other.
use zephyr_cyw43_driver.Prelude.{
  ℕ, zero, suc, ◌-◌, ◌/◌, ◌%◌, ◌^◌, ◌<◌, ◌≡◌, ◌≢◌, arith, refl, bit_and, Bool, true, false, List,
  ◌∷◌, ◌&&◌, ◌==◌, if◌then◌else◌, ==_iff,
}
use zephyr_cyw43_driver.Prelude.Bits.{and_low, and-digit_at}
use zephyr_cyw43_driver.Prelude.Fault.{Returns}
use zephyr_cyw43_driver.Wifi.Platform.{
  Platform, Config, Call, write_itf_state, dormant_on, dhcpv4_server_stop, wifi_set_up,
}
use zephyr_cyw43_driver.Wifi.Device.{Driver, is_up}
use zephyr_cyw43_driver.Wifi.AccessPoint.{disable_ap}

abbrev keep_mask : ℕ → ℕ
keep_mask k = 2 ^ 32 - 1 - 2 ^ k

-- The digits of the mask, by evaluation at every pair of positions.
all_below : ℕ → (ℕ → Bool) → Bool
all_below zero p = true
all_below (suc n) p = p n && all_below n p

at_all_below : (n : ℕ) (p : ℕ → Bool) (x : ℕ) → all_below n p ≡ true → x < n → p x ≡ true
unfolding all_below
at_all_below zero p x h lt = absurd (omega arith)
at_all_below (suc n) p x h lt = ground (arith, at_all_below n p x)

keep_mask_table :
    all_below 32 (λ k. all_below 32 (λ i. keep_mask k / 2 ^ i % 2 == (if i == k then 0 else 1)))
    ≡ true
unfolding all_below
keep_mask_table = refl

keep_mask_digit : (k i : ℕ) → k < 32 → i < 32 → keep_mask k / 2 ^ i % 2 ≡ (if i == k then 0 else 1)
keep_mask_digit k i hk hi = (==_iff _ _).0 (
    at_all_below 32 (λ i. keep_mask k / 2 ^ i % 2 == (if i == k then 0 else 1)) i
      (at_all_below 32 _ k keep_mask_table hk) hi)

is_up_mod : (x i : ℕ) → is_up x i ≡ (if x / 2 ^ i % 2 == 0 then false else true)
is_up_mod x i = ground (arith, and_low 1 (x / 2 ^ i))

is_up-keep :
    (x k i : ℕ)
    → k < 32
    → i < 32
    → is_up (bit_and x (keep_mask k)) i ≡ (if i == k then false else is_up x i)
is_up-keep x k i hk hi = ground (
  arith,
  is_up_mod x i,
  is_up_mod (bit_and x (keep_mask k)) i,
  and-digit_at i x (keep_mask k),
  keep_mask_digit k i hk hi,
)

-- What the library's state does: an assignment is read back, and the calls of the network stack
-- leave it alone.
pub record Remembers (p : Platform) : Type 0 where
  pub assigned : (v : ℕ) (l : List Call) → p.itf_state (write_itf_state v ∷ l) ≡ v
  pub dormant : (l : List Call) → p.itf_state (dormant_on ∷ l) ≡ p.itf_state l
  pub stopped : (l : List Call) → p.itf_state (dhcpv4_server_stop ∷ l) ≡ p.itf_state l

abbrev pub restored : Platform → List Call → List Call
restored p l = wifi_set_up p.itf_sta true ∷ wifi_set_up p.itf_ap false ∷ l

-- Where the two interfaces are different bits of a 32-bit word, `zephyr_cyw43_disable_ap` always
-- returns, leaves the access point down in `itf_state` and the station as the library set it up,
-- and keeps the device.
pub disable_ap_lem :
    (p : Platform) (c : Config) (s : Driver)
    → Remembers p
    → p.itf_ap < 32
    → p.itf_sta < 32
    → p.itf_sta ≢ p.itf_ap
    → Returns
        (λ rv s'.
          (is_up (p.itf_state s'.log) p.itf_ap ≡ false)
          × (is_up (p.itf_state s'.log) p.itf_sta
              ≡ is_up (p.itf_state (restored p s.log)) p.itf_sta)
          × (s'.dev ≡ s.dev))
        (disable_ap p c s)
unfolding disable_ap
disable_ap_lem p c s m ha hs ne = ground (
  arith,
  m.assigned v l,
  m.dormant (write_itf_state v ∷ l),
  m.stopped (write_itf_state v ∷ l),
  m.dormant (dhcpv4_server_stop ∷ write_itf_state v ∷ l),
  is_up-keep x p.itf_ap p.itf_ap ha ha,
  is_up-keep x p.itf_ap p.itf_sta ha hs,
)
  where
    l : List Call
    l = restored p s.log

    x : ℕ
    x = p.itf_state l

    v : ℕ
    v = bit_and x (keep_mask p.itf_ap)
