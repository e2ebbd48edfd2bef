-- ===== src/Wifi/Platform.antt =====
-- What drivers/wifi/zephyr_cyw43/src/zephyr_cyw43_drv.c calls but does not implement: the
-- cyw43-driver library (a git submodule) and the Zephyr kernel. Every such call is an entry of a
-- log, newest first; what it answers is a function of the log that it stands at the head of, so
-- any behaviour that depends on the past calls is allowed.
use zephyr_cyw43_driver.Prelude.{ℕ, Bool, List, Option}
use zephyr_cyw43_driver.Prelude.Int.{ℤ}

-- `enum wifi_security_type`: the four values that the driver names. A switch over two of them
-- that were equal would not compile.
pub data Security : Type 0 where
  no_security wpa_psk psk unknown : Security
  other : ℕ → Security

-- The results of `cyw43_wifi_link_status` that the driver names.
pub data Link : Type 0 where
  join nonet : Link
  other : ℕ → Link

-- The arguments of `cyw43_wifi_join`; the BSSID is always NULL.
pub record Network : Type 0 where
  pub ssid_len : ℕ
  pub ssid : List ℕ
  pub key_len : ℕ
  pub key : List ℕ
  pub auth_type : ℕ
  pub channel : ℕ

-- `struct wifi_scan_result`
pub record ScanResult : Type 0 where
  pub ssid_length : ℕ
  pub ssid : List ℕ
  pub channel : ℕ
  pub rssi : ℤ
  pub mac : List ℕ
  pub security : Security

pub data Call : Type 0 where
  -- the cyw43-driver library
  library_init : Call  -- `cyw43_init`
  wifi_scan_active : Call
  wifi_scan : (scan_type : ℕ) → Call
  wifi_join : Network → Call
  wifi_link_status : Call
  wifi_leave : Call
  wifi_ap_set_ssid : ℕ → List ℕ → Call
  wifi_ap_set_password : ℕ → List ℕ → Call
  wifi_ap_set_channel : ℕ → Call
  wifi_ap_set_auth : ℕ → Call
  wifi_set_up : (itf : ℕ) → Bool → Call
  wifi_pm : ℕ → Call
  wifi_get_pm : Call
  wifi_get_bssid : Call
  ioctl_get_channel : (itf : ℕ) → Call
  wifi_get_rssi : Call
  send_ethernet : (itf : ℕ) → (len : ℕ) → List ℕ → Call
  write_itf_state : ℕ → Call  -- the assignment to `cyw43_state.itf_state`
  -- the Zephyr kernel, and the driver's own lock
  lock unlock : Call
  sleep : (ms : ℕ) → Call
  work_submit : Call  -- `k_work_submit_to_queue`
  mutex_init sem_init work_queue_start work_init poll_thread_create : Call
  wake_pin_configure init_callback add_callback : Call
  busy_wait : (us : ℕ) → Call
  -- the driver's other files
  shell_register : Call
  set_irq_enabled : Bool → Call  -- `cyw43_spi_irq_enable`
  -- the Zephyr network stack
  set_wifi_type set_link_addr ethernet_init carrier_on : Call
  dormant_on dormant_off : Call
  dhcpv4_restart dhcpv4_stop : Call
  dhcpv4_server_start dhcpv4_server_stop : Call
  addr_pton_address addr_pton_netmask : Call
  ipv4_addr_add ipv4_set_netmask : Call
  connect_result_event disconnect_result_event : ℤ → Call
  scan_cb : (cb : ℕ) → Option ScanResult → Call
  pkt_read : (len : ℕ) → Call
  pkt_rx_alloc : (len : ℕ) → Call
  pkt_write : List ℕ → Call
  recv_data : Call
  pkt_unref : Call

-- The constants and the answers of the code outside the repository.
pub record Platform : Type 0 where
  pub eio : ℕ
  pub eagain : ℕ
  pub ebusy : ℕ
  pub itf_sta : ℕ  -- CYW43_ITF_STA
  pub itf_ap : ℕ  -- CYW43_ITF_AP
  pub channel_none : ℕ
  pub auth_open : ℕ
  pub auth_wpa_tkip_psk : ℕ
  pub auth_wpa2_aes_psk : ℕ
  pub auth_wpa2_mixed_psk : ℕ
  pub no_powersave_mode : ℕ
  pub pm2_powersave_mode : ℕ
  pub pm_value : ℕ → ℕ → ℕ → ℕ → ℕ → ℕ  -- `cyw43_pm_value`
  pub ret : List Call → ℤ  -- the int that the newest call returned
  pub active : List Call → Bool  -- the answer of `cyw43_wifi_scan_active`
  pub link : List Call → Link  -- the answer of `cyw43_wifi_link_status`
  pub itf_state : List Call → ℕ  -- `cyw43_state.itf_state` as it now stands
  pub word : List Call → ℕ  -- what the newest call stored through its pointer
  pub bytes : List Call → List ℕ

-- The build options that the driver reads.
pub record Config : Type 0 where
  pub sta_auto_dhcpv4 : Bool
  pub ap_auto_dhcpv4 : Bool
  pub net_statistics_wifi : Bool
  pub powersave_mode : ℕ
  pub pm2_sleep_ret_ms : ℕ
  pub li_beacon_period : ℕ
  pub li_dtim_period : ℕ
  pub li_assoc : ℕ
