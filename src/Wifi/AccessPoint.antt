-- ===== src/Wifi/AccessPoint.antt =====
-- Access-point mode: `zephyr_cyw43_enable_ap`, `zephyr_cyw43_disable_ap`, run by the work item.
pub mod Release
pub mod Startup
use zephyr_cyw43_driver.Prelude.{◌-◌, ◌^◌, true, false, ◌==◌, not, bit_and}
use zephyr_cyw43_driver.Prelude.Int.{ℤ, pos, is_zero}
use zephyr_cyw43_driver.Prelude.Fault.{M, ◌>>=◌, ◌>>◌, pure, get, when}
use zephyr_cyw43_driver.Wifi.Platform.{Platform, Config, Network, Call}
use zephyr_cyw43_driver.Wifi.Device.{Driver, perform, invoke, read_itf_state}
use zephyr_cyw43_driver.Wifi.Join.{join_request}

module _ (p : Platform) where
  -- What goes to the library: the password is not set on an open network.
  unfoldable pub configure_ap : Network → M Driver (Unit {0})
  configure_ap n = do
    perform Call.lock
    perform (Call.wifi_ap_set_ssid n.ssid_len n.ssid)
    when (not (n.auth_type == p.auth_open)) (perform (Call.wifi_ap_set_password n.key_len n.key))
    perform (Call.wifi_ap_set_channel n.channel)
    perform (Call.wifi_ap_set_auth n.auth_type)
    perform Call.unlock
    perform (Call.wifi_set_up p.itf_ap true)

  -- The DHCP server; `ipv4_addr_add` returns 0 for a null pointer.
  unfoldable pub start_dhcp_server : M Driver ℤ
  start_dhcp_server = do
    address ← invoke p Call.addr_pton_address
    elim (is_zero address) [
      | false ↦ pure (pos 0)
      | true ↦ (do
        netmask ← invoke p Call.addr_pton_netmask
        elim (is_zero netmask) [
          | false ↦ pure (pos 0)
          | true ↦ (do
            added ← invoke p Call.ipv4_addr_add
            elim (is_zero added) [
              | true ↦ pure (pos 0)
              | false ↦ (do
                perform Call.ipv4_set_netmask
                perform Call.dormant_off
                perform Call.dhcpv4_server_start
                pure (pos 0))
            ])
        ])
    ]

  module _ (c : Config) where
    -- The switch on the security type is that of `zephyr_cyw43_connect`, over `ap_params`.
    unfoldable pub enable_ap : M Driver ℤ
    unfolding configure_ap start_dhcp_server join_request
    enable_ap = do
      s ← get
      n ← join_request p s.dev.ap_params s.dev.ap_params.security
      configure_ap n
      elim c.ap_auto_dhcpv4 [
        | false ↦ (do perform Call.dormant_off; pure (pos 0))
        | true ↦ start_dhcp_server
      ]

    unfoldable pub disable_ap : M Driver ℤ
    disable_ap = do
      perform (Call.wifi_set_up p.itf_ap false)
      perform (Call.wifi_set_up p.itf_sta true)
      state ← read_itf_state p
      perform (Call.write_itf_state (bit_and state (2 ^ 32 - 1 - 2 ^ p.itf_ap)))
      elim c.ap_auto_dhcpv4 [
        | false ↦ (do perform Call.dormant_on; pure (pos 0))
        | true ↦ (do rc ← invoke p Call.dhcpv4_server_stop; perform Call.dormant_on; pure rc)
      ]
