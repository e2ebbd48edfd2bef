-- ===== src/Wifi/Scan/Reported.antt =====
-- The security type that a scan result is reported with.
use zephyr_cyw43_driver.Prelude.{
  ℕ, ◌^◌, ◌<◌, ◌≤◌, ◌≡◌, ◌==◌, ◌||◌, if◌then◌else◌, arith, bit_and, bit_or,
}
use zephyr_cyw43_driver.Prelude.Bits.{and_high, le-or, or-lt}
use zephyr_cyw43_driver.Wifi.Platform.{Platform, psk, unknown}
use zephyr_cyw43_driver.Wifi.Scan.{scan_security}

-- What the driver compares: bit 22 set, the lowest bit cleared.
abbrev pub compared : ℕ → ℕ
compared auth_mode = bit_and (bit_or auth_mode 0x0040_0000) 0xffff_fffe

compared-le : (auth_mode : ℕ) → auth_mode < 2 ^ 32 → 2 ^ 22 ≤ compared auth_mode
compared-le a h = omega (
  arith,
  le-or a 0x0040_0000,
  and_high 1 31 (bit_or a 0x0040_0000) (or-lt 32 a 0x0040_0000 h (omega arith)),
)

-- Where the codes of an open network and of WPA lie below bit 22, as in the library, no scan
-- result with an authentication word of 32 bits is reported as open or as WPA: the type is WPA2 if the compared word is one of the
-- two WPA2 codes, and unknown otherwise.
pub scan_security_lem :
    (p : Platform) (auth_mode : ℕ)
    → auth_mode < 2 ^ 32
    → p.auth_open < 2 ^ 22
    → p.auth_wpa_tkip_psk < 2 ^ 22
    → scan_security p auth_mode ≡ (
        if (compared auth_mode == p.auth_wpa2_aes_psk)
          || (compared auth_mode == p.auth_wpa2_mixed_psk)
        then psk
        else unknown)
unfolding scan_security
scan_security_lem p auth_mode h open_low wpa_low = ground (arith, compared-le auth_mode h)
