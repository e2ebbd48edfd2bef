-- ===== src/Wifi/Join.antt =====
-- `zephyr_cyw43_connect` and `zephyr_cyw43_disconnect`, run by the work item.
pub mod Attempts
pub mod Outcome
use zephyr_cyw43_driver.Prelude.{ℕ, zero, suc, Bool, true, false, ◌==◌, if◌then◌else◌}
use zephyr_cyw43_driver.Prelude.Int.{ℤ, pos, neg, is_zero}
use zephyr_cyw43_driver.Prelude.Fault.{M, ◌>>=◌, ◌>>◌, pure, get, when}
use zephyr_cyw43_driver.Prelude.Text.{strlen}
use zephyr_cyw43_driver.Wifi.Platform.{Platform, Config, Network, Call, Link, join}
use zephyr_cyw43_driver.Wifi.Platform.{Security, no_security, wpa_psk, psk}
use zephyr_cyw43_driver.Wifi.Device.{Driver, ConnectParams, perform, invoke, link_status, checked}

-- The arguments of `cyw43_wifi_join`: `n` was computed before the loop, but of the SSID and the
-- key only their addresses, in the device; the bytes are those that stand there by now.
abbrev pub at_hand : Network → ConnectParams → Network
at_hand n c = record n { ssid = c.ssid; key = c.psk }

module _ (p : Platform) where
  -- The channel to ask for: 0 stands for any.
  unfoldable pub pick_channel : ℕ → ℕ
  pick_channel channel = if channel == 0 then p.channel_none else channel

  -- A network that is named by its SSID and opened by its key.
  keyed : ConnectParams → ℕ → M Driver Network
  unfolding pick_channel
  keyed c auth = do
    ssid_len ← checked (strlen c.ssid)
    key_len ← checked (strlen c.psk)
    pure (record {
      ssid_len = ssid_len;
      ssid = c.ssid;
      key_len = key_len;
      key = c.psk;
      auth_type = auth;
      channel = pick_channel c.channel;
    })

  -- The switch on the security type: the lengths, the authentication and the channel.
  unfoldable pub join_request : ConnectParams → Security → M Driver Network
  unfolding keyed pick_channel
  join_request c no_security = do
    ssid_len ← checked (strlen c.ssid)
    pure (record {
      ssid_len = ssid_len;
      ssid = c.ssid;
      key_len = 0;
      key = c.psk;
      auth_type = p.auth_open;
      channel = pick_channel c.channel;
    })
  join_request c wpa_psk = keyed c p.auth_wpa_tkip_psk
  join_request c psk = keyed c p.auth_wpa2_aes_psk
  join_request c _ = pure (record {
    ssid_len = 0;
    ssid = c.ssid;
    key_len = 0;
    key = c.psk;
    auth_type = p.auth_open;
    channel = p.channel_none;
  })

  -- The inner loop, with `j` polls left: true if every one of them finds the link up.
  unfoldable pub link_holds : ℕ → M Driver Bool
  link_holds zero = pure true
  link_holds (suc j) = do
    status ← link_status p
    elim status [ join ↦ (do perform (Call.sleep 500); link_holds j) | _ ↦ pure false ]

  -- The outer loop, with `i` attempts left and the `rv` of the last one.
  unfoldable pub join_attempts : ℕ → Network → ℤ → M Driver ℤ
  join_attempts zero n rv = pure rv
  join_attempts (suc i) n rv = do
    s ← get
    code ← invoke p (Call.wifi_join (at_hand n s.dev.connect_params))
    elim (is_zero code) [
      | false ↦ join_attempts i n code
      | true ↦ (do
        held ← link_holds 8
        elim held [ true ↦ pure (pos 0) | false ↦ join_attempts i n (pos 1) ])
    ]

  module _ (c : Config) where
    -- What follows the loops. `rv` is read only after an attempt has set it.
    unfoldable pub report_join : ℤ → M Driver ℤ
    report_join rv = elim (is_zero rv) [
      | false ↦ (do perform Call.dormant_on; pure rv)
      | true ↦ (do
        perform Call.dormant_off
        perform (if c.sta_auto_dhcpv4 then Call.dhcpv4_restart else Call.connect_result_event rv)
        pure rv)
    ]

    unfoldable pub connect : M Driver ℤ
    unfolding join_request join_attempts link_holds report_join
    connect = do
      s ← get
      n ← join_request s.dev.connect_params s.dev.connect_params.security
      rv ← join_attempts 5 n (pos 0)
      report_join rv

    unfoldable pub disconnect : M Driver ℤ
    disconnect = do
      rv ← invoke p Call.wifi_leave
      elim (is_zero rv) [
        | false ↦ pure (neg p.eio)
        | true ↦ (do
          when c.sta_auto_dhcpv4 (perform Call.dhcpv4_stop)
          perform Call.dormant_on
          perform (Call.disconnect_result_event rv)
          pure rv)
      ]
