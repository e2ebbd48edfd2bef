-- ===== src/Wifi/Device.antt =====
-- `zephyr_cyw43_dev_t` of zephyr_cyw43_drv.h, and the state of a run: the device and the log of
-- the calls made so far.
use zephyr_cyw43_driver.Prelude.{ℕ, ◌/◌, ◌^◌, bit_and}
use zephyr_cyw43_driver.Prelude.{Bool, not, ◌==◌, List, ◌∷◌, Option, none, some}
use zephyr_cyw43_driver.Prelude.Int.{ℤ}
use zephyr_cyw43_driver.Prelude.Fault.{M}
use zephyr_cyw43_driver.Wifi.Platform.{Platform, Call, Security, Link, wifi_link_status}
use zephyr_cyw43_driver.Wifi.Platform.{wifi_scan_active}

-- `enum zephyr_cyw43_request`
pub data Request : Type 0 where
  active_scan passive_scan connect disconnect enable_ap disable_ap iface_status set_pm idle :
      Request

-- `enum zephyr_cyw43_role`
pub data Role : Type 0 where
  client access_point : Role

-- `struct zephyr_cyw43_connect_params`
pub record ConnectParams : Type 0 where
  pub ssid : List ℕ  -- WIFI_SSID_MAX_LEN + 1 bytes
  pub psk : List ℕ  -- 65 bytes
  pub security : Security
  pub channel : ℕ

-- `struct net_stats_wifi`, the counters that the driver changes or hands on
pub record Stats : Type 0 where
  pub bytes_received : ℕ
  pub bytes_sent : ℕ
  pub pkts_rx : ℕ
  pub pkts_tx : ℕ
  pub errors_rx : ℕ
  pub errors_tx : ℕ
  pub broadcast_rx : ℕ
  pub broadcast_tx : ℕ
  pub multicast_rx : ℕ
  pub multicast_tx : ℕ
  pub beacons_rx : ℕ
  pub beacons_miss : ℕ

pub record Device : Type 0 where
  pub iface : Bool  -- the network interface is known
  pub scan_cb : Option ℕ  -- the scan's callback, `none` for a null pointer
  pub connect_params : ConnectParams
  pub ap_params : ConnectParams
  pub pm_out : ℕ
  pub pm_in : ℕ
  pub req : Request
  pub role : Role
  pub stats : Stats
  pub frame_buf : List ℕ

pub record Driver : Type 0 where
  pub dev : Device
  pub log : List Call

-- A call whose result is not read.
abbrev pub perform : Call → M Driver (Unit {0})
perform c s = some (tt, record s { log = c ∷ s.log })

-- An update of the device.
abbrev pub update_dev : (Device → Device) → M Driver (Unit {0})
update_dev f s = some (tt, record s { dev = f s.dev })

-- A value of the program that may be an access out of bounds.
abbrev pub checked : {A : Type 0} → Option A → M Driver A
checked none s = none
checked (some a) s = some (a, s)

-- `(state >> itf) & 1`, as the condition of an `if`
abbrev pub is_up : ℕ → ℕ → Bool
is_up state itf = not (bit_and (state / 2 ^ itf) 1 == 0)

module _ (p : Platform) where
  -- A call whose int result is read.
  abbrev pub invoke : Call → M Driver ℤ
  invoke c s = some (p.ret (c ∷ s.log), record s { log = c ∷ s.log })

  abbrev pub link_status : M Driver Link
  link_status s =
      some (p.link (wifi_link_status ∷ s.log), record s { log = wifi_link_status ∷ s.log })

  abbrev pub scan_active : M Driver Bool
  scan_active s =
      some (p.active (wifi_scan_active ∷ s.log), record s { log = wifi_scan_active ∷ s.log })

  -- A read of `cyw43_state.itf_state`.
  abbrev pub read_itf_state : M Driver ℕ
  read_itf_state s = some (p.itf_state s.log, s)
