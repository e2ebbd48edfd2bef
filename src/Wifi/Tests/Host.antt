-- ===== src/Wifi/Tests/Host.antt =====
-- A library that does as it is told: every call succeeds, the link is up once the network was
-- joined, a scan is never under way, and `itf_state` is what it was last set to.
use zephyr_cyw43_driver.Prelude.{
  ℕ, ◌+◌, ◌-◌, ◌*◌, ◌^◌, true, false, List, [], ◌∷◌, some, replicate, ◌≤◌, arith, length,
  length-replicate,
}
use zephyr_cyw43_driver.Prelude.Int.{pos}
use zephyr_cyw43_driver.Wifi.Platform.{Platform, Config, Call, Link, Security, wifi_join}
use zephyr_cyw43_driver.Wifi.Platform.{write_itf_state, pkt_read}
use zephyr_cyw43_driver.Wifi.Device.{Device, Driver, ConnectParams, Request, Role}
use zephyr_cyw43_driver.Wifi.Mgmt.{ConnectRequest}

abbrev pub kept_state : List Call → ℕ
kept_state [] = 3
kept_state (write_itf_state v ∷ l) = v
kept_state (_ ∷ l) = kept_state l

abbrev pub kept_link : List Call → Link
kept_link [] = Link.other 0
kept_link (wifi_join n ∷ l) = Link.join
kept_link (_ ∷ l) = kept_link l

abbrev pub read_bytes : List Call → List ℕ
read_bytes (pkt_read n ∷ l) = replicate n 7
read_bytes _ = []

abbrev pub host : Platform
host = record {
  eio = 5;
  eagain = 11;
  ebusy = 16;
  itf_sta = 0;
  itf_ap = 1;
  channel_none = 2 ^ 32 - 1;
  auth_open = 0;
  auth_wpa_tkip_psk = 0x20_0002;
  auth_wpa2_aes_psk = 0x40_0004;
  auth_wpa2_mixed_psk = 0x40_0006;
  no_powersave_mode = 0;
  pm2_powersave_mode = 2;
  pm_value = λ mode sleep beacon dtim assoc.
      mode + sleep * 2 ^ 4 + beacon * 2 ^ 12 + dtim * 2 ^ 16 + assoc * 2 ^ 20;
  ret = λ l. pos 0;
  active = λ l. false;
  link = kept_link;
  itf_state = kept_state;
  word = λ l. 0;
  bytes = read_bytes;
}

-- The same library with both interfaces down.
abbrev pub idle_host : Platform
idle_host = let h : Platform = host in record h { itf_state = λ l. 0 }

-- The same library, with positive answers: packets can be had.
abbrev pub full_host : Platform
full_host = let h : Platform = host in record h { ret = λ l. pos 1 }

abbrev pub config : Config
config = record {
  sta_auto_dhcpv4 = false;
  ap_auto_dhcpv4 = true;
  net_statistics_wifi = true;
  powersave_mode = 2;
  pm2_sleep_ret_ms = 20;
  li_beacon_period = 1;
  li_dtim_period = 1;
  li_assoc = 10;
}

abbrev pub stored : ConnectParams
stored = record {
  ssid = 65 ∷ 66 ∷ replicate 31 0;
  psk = 99 ∷ replicate 64 0;
  security = Security.psk;
  channel = 6;
}

abbrev pub blank : ConnectParams
blank = record {
  ssid = replicate 33 0;
  psk = replicate 65 0;
  security = Security.no_security;
  channel = 0;
}

abbrev pub wanted : ConnectRequest
wanted = record {
  ssid = 65 ∷ 66 ∷ [];
  ssid_length = 2;
  psk = 99 ∷ [];
  psk_length = 1;
  security = Security.psk;
  channel = 6;
}

-- The device with its credentials stored, a scan callback, and the request `r`.
abbrev pub device : Request → Device
device r = record {
  iface = true;
  scan_cb = some 4;
  connect_params = stored;
  ap_params = blank;
  pm_out = 0;
  pm_in = 0;
  req = r;
  role = Role.client;
  stats = record {
    bytes_received = 0;
    bytes_sent = 0;
    pkts_rx = 0;
    pkts_tx = 0;
    errors_rx = 0;
    errors_tx = 0;
    broadcast_rx = 0;
    broadcast_tx = 0;
    multicast_rx = 0;
    multicast_tx = 0;
    beacons_rx = 0;
    beacons_miss = 0;
  };
  frame_buf = replicate 64 0;
}

abbrev pub driver : Request → Driver
driver r = record { dev = device r; log = [] }

-- No more bytes are read than were asked for.
pub host-reads : (n : ℕ) (l : List Call) → length (host.bytes (pkt_read n ∷ l)) ≤ n
host-reads n l = omega (arith, length-replicate {A = ℕ} n 7)
