-- ===== src/Wifi/Scan.antt =====
-- Scanning: `process_cyw43_scan_result`, called back by the library for each network found, and
-- `zephyr_cyw43_scan`, run by the work item.
pub mod Outcome
pub mod Reported
use zephyr_cyw43_driver.Prelude.{
  ℕ, zero, suc, ◌%◌, ◌^◌, ◌-◌, ltb, Bool, true, false, ◌==◌, if◌then◌else◌, bit_and, bit_or,
}
use zephyr_cyw43_driver.Prelude.{List, Option, none, some, take}
use zephyr_cyw43_driver.Prelude.Int.{ℤ, pos, negsuc, is_zero}
use zephyr_cyw43_driver.Prelude.Fault.{M, ◌>>=◌, ◌>>◌, pure, fault, get}
use zephyr_cyw43_driver.Prelude.Text.{strnlen, strncpy}
use zephyr_cyw43_driver.Prelude.{replicate}
use zephyr_cyw43_driver.Wifi.Platform.{Platform, Call, ScanResult}
use zephyr_cyw43_driver.Wifi.Platform.{Security, no_security, wpa_psk, psk, unknown}
use zephyr_cyw43_driver.Wifi.Device.{Driver, perform, invoke, scan_active, checked}

abbrev pub wifi_ssid_max_len : ℕ
wifi_ssid_max_len = 32

abbrev pub wifi_mac_addr_len : ℕ
wifi_mac_addr_len = 6

-- `cyw43_ev_scan_result_t`
pub record ScanEvent : Type 0 where
  pub ssid : List ℕ
  pub channel : ℕ
  pub rssi : ℤ
  pub bssid : List ℕ
  pub auth_mode : ℕ

-- The conversion of an int16_t to an int8_t, which wraps around.
abbrev pub to_int8 : ℤ → ℤ
to_int8 (pos n) =
    if ltb (n % 2 ^ 8) (2 ^ 7) then pos (n % 2 ^ 8) else negsuc (2 ^ 8 - 1 - n % 2 ^ 8)
to_int8 (negsuc n) =
    if ltb (n % 2 ^ 8) (2 ^ 7) then negsuc (n % 2 ^ 8) else pos (2 ^ 8 - 1 - n % 2 ^ 8)

-- A call of the callback that `zephyr_cyw43_mgmt_scan` stored, under the lock.
unfoldable pub call_scan_cb : Option ScanResult → M Driver (Unit {0})
call_scan_cb result = do
  perform Call.lock
  s ← get
  elim s.dev.scan_cb [ none ↦ fault | some cb ↦ perform (Call.scan_cb cb result) ]
  perform Call.unlock

module _ (p : Platform) where
  -- `CYW43_SECURITY_TO_ZEPHYR_SECURITY`
  unfoldable pub security_to_zephyr : ℕ → Security
  security_to_zephyr x =
      if x == p.auth_open
      then no_security
      else if x == p.auth_wpa_tkip_psk
      then wpa_psk
      else if x == p.auth_wpa2_aes_psk
      then psk
      else if x == p.auth_wpa2_mixed_psk
      then psk
      else unknown

  unfoldable pub scan_security : ℕ → Security
  unfolding security_to_zephyr
  scan_security auth_mode = security_to_zephyr (bit_and (bit_or auth_mode 0x0040_0000) 0xffff_fffe)

  -- The channel and the signal strength, uint16_t and int16_t, go to fields of 8 bits.
  unfoldable pub process_scan_result : Option ScanEvent → M Driver ℤ
  unfolding scan_security call_scan_cb
  process_scan_result none = pure (pos 0)
  process_scan_result (some r) = do
    ssid_length ← checked (strnlen r.ssid wifi_ssid_max_len)
    ssid ← checked (strncpy (replicate (suc wifi_ssid_max_len) 0) r.ssid ssid_length)
    call_scan_cb (
        some (record {
          ssid_length = ssid_length;
          ssid = ssid;
          channel = r.channel % 2 ^ 8;
          rssi = to_int8 r.rssi;
          mac = take wifi_mac_addr_len r.bssid;
          security = scan_security r.auth_mode;
        }))
    pure (pos 0)

  -- The loop that waits for the scan, with `i` rounds left.
  unfoldable pub await_scan : ℕ → M Driver (Unit {0})
  await_scan zero = pure tt
  await_scan (suc i) = do
    busy ← scan_active p
    elim busy [ false ↦ pure tt | true ↦ (do perform (Call.sleep 50); await_scan i) ]

  unfoldable pub scan : Bool → M Driver ℤ
  scan active = do
    busy ← scan_active p
    elim busy [
      | true ↦ pure (pos 0)
      | false ↦ (do
        err ← invoke p (Call.wifi_scan (if active then 0 else 1))
        elim (is_zero err) [
          | false ↦ pure err
          | true ↦ (do await_scan 50; call_scan_cb none; pure err)
        ])
    ]
