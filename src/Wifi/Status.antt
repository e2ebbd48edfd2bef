-- ===== src/Wifi/Status.antt =====
-- What the driver reports: `zephyr_cyw43_iface_status` and `zephyr_cyw43_pm_status`.
pub mod PowerSave
use zephyr_cyw43_driver.Prelude.{
  ℕ, ◌*◌, ◌/◌, ◌%◌, ◌^◌, Bool, true, false, ◌==◌, if◌then◌else◌, bit_and,
}
use mathlib.Core.Option
use zephyr_cyw43_driver.Prelude.{List, [], ◌∷◌, Option, none, some}
use zephyr_cyw43_driver.Prelude.Int.{is_zero}
use zephyr_cyw43_driver.Prelude.Fault.{M, ◌>>=◌, ◌>>◌, pure, get}
use zephyr_cyw43_driver.Prelude.Text.{strlen, text_of}
use zephyr_cyw43_driver.Wifi.Platform.{Platform, Call, Link, join, nonet, Security}
use zephyr_cyw43_driver.Wifi.Device.{
  Driver, Device, ConnectParams, perform, update_dev, invoke, link_status,
}
use zephyr_cyw43_driver.Wifi.Device.{checked, is_up, read_itf_state}

-- `enum wifi_iface_mode`, the values that the driver sets
pub data IfaceMode : Type 0 where
  mode_unknown infra ap : IfaceMode

-- `enum wifi_iface_state`, the values that the driver sets
pub data IfaceState : Type 0 where
  disconnected inactive completed : IfaceState

-- `struct wifi_iface_status`; `none` is a field that the driver leaves as the caller passed it.
-- The driver always sets the link mode to 802.11n, the band to 2.4 GHz and `twt_capable` to false.
pub record IfaceStatus : Type 0 where
  pub mode : IfaceMode
  pub state : IfaceState
  pub bssid : List ℕ
  pub channel : ℕ
  pub rssi : Option ℕ
  pub ssid : Option (List ℕ)  -- the text
  pub ssid_len : Option ℕ
  pub security : Option Security
  pub beacon_interval : Option ℕ
  pub dtim_period : Option ℕ

-- `enum wifi_ps_wakeup_mode`
pub data Wakeup : Type 0 where
  dtim listen_interval : Wakeup

-- The fields of `struct wifi_ps_config` that the driver sets.
pub record PmConfig : Type 0 where
  pub enabled : Bool
  pub wakeup_mode : Option Wakeup
  pub timeout_ms : Option ℕ

abbrev pub beacon_field : ℕ → ℕ
beacon_field pm = bit_and pm 0xf000 / 2 ^ 12

abbrev pub dtim_field : ℕ → ℕ
dtim_field pm = bit_and pm 0xf_0000 / 2 ^ 16

module _ (p : Platform) where
  unfoldable pub iface_mode : ℕ → IfaceMode
  iface_mode state =
      if is_up state p.itf_ap then ap else if is_up state p.itf_sta then infra else mode_unknown

  -- The state of a station, from its link.
  unfoldable pub link_state : Link → IfaceState
  link_state join = completed
  link_state nonet = inactive
  link_state _ = disconnected

  unfoldable pub iface_state : IfaceMode → M Driver IfaceState
  unfolding link_state
  iface_state infra = do status ← link_status p; pure (link_state status)
  iface_state ap = pure completed
  iface_state mode_unknown = pure disconnected

  -- A call that stores a word or bytes through its pointer.
  abbrev pub fetch_word : Call → M Driver ℕ
  fetch_word c s = some (p.word (c ∷ s.log), record s { log = c ∷ s.log })

  abbrev pub fetch_bytes : Call → M Driver (List ℕ)
  fetch_bytes c s = some (p.bytes (c ∷ s.log), record s { log = c ∷ s.log })

  -- `strcpy` of the SSID, or of an empty text while the link is not complete.
  unfoldable pub shown_ssid : IfaceState → List ℕ → List ℕ
  shown_ssid completed ssid = text_of ssid
  shown_ssid _ ssid = []

  -- `cyw43_wifi_get_pm(&cyw43_state, &pm_in)`: true if it succeeds.
  unfoldable pub refresh_pm : M Driver Bool
  refresh_pm = do
    rv ← invoke p Call.wifi_get_pm
    s ← get
    update_dev (λ d. record d { pm_in = p.word s.log })
    pure (is_zero rv)

  -- The power-saving fields of the status, if the driver sets them.
  unfoldable pub saving_fields : Bool → ℕ → (ℕ → ℕ) → Option ℕ
  saving_fields false pm field = none
  saving_fields true pm field =
      if bit_and pm 0xf == p.no_powersave_mode then none else some (field pm)

  -- The credentials of the mode.
  unfoldable pub shown_params : IfaceMode → Device → Option ConnectParams
  shown_params infra d = some d.connect_params
  shown_params ap d = some d.ap_params
  shown_params mode_unknown d = none

  unfoldable pub fetch_rssi : IfaceMode → M Driver (Option ℕ)
  fetch_rssi infra = do rssi ← fetch_word Call.wifi_get_rssi; pure (some rssi)
  fetch_rssi _ = pure none

  -- `strlen` of the SSID in use, whatever the state.
  unfoldable pub ssid_length : Option ConnectParams → M Driver (Option ℕ)
  ssid_length none = pure none
  ssid_length (some params) = do len ← checked (strlen params.ssid); pure (some len)

  abbrev pub channel_itf : IfaceMode → ℕ
  channel_itf infra = p.itf_sta
  channel_itf _ = p.itf_ap

  unfoldable pub iface_status : M Driver IfaceStatus
  unfolding iface_mode iface_state fetch_rssi ssid_length refresh_pm shown_params shown_ssid
      saving_fields
  iface_status = do
    raw ← read_itf_state p
    let mode = iface_mode raw
    state ← iface_state mode
    bssid ← fetch_bytes Call.wifi_get_bssid
    channel ← fetch_word (Call.ioctl_get_channel (channel_itf mode))
    rssi ← fetch_rssi mode
    s ← get
    let params : Option ConnectParams = shown_params mode s.dev
    ssid_len ← ssid_length params
    good ← refresh_pm
    t ← get
    pure (record {
      mode = mode;
      state = state;
      bssid = bssid;
      channel = channel;
      rssi = rssi;
      ssid = Option.map (λ (c : ConnectParams). shown_ssid state c.ssid) params;
      ssid_len = ssid_len;
      security = Option.map (λ (c : ConnectParams). c.security) params;
      beacon_interval = saving_fields good t.dev.pm_in beacon_field;
      dtim_period = saving_fields good t.dev.pm_in dtim_field;
    })

  -- The locals of `zephyr_cyw43_pm_status`, from the word that the library reports.
  unfoldable pub wakeup_of : ℕ → Wakeup
  wakeup_of pm = if bit_and pm 0xff0 / 2 ^ 16 % 2 ^ 8 == 0 then listen_interval else dtim

  unfoldable pub timeout_of : ℕ → ℕ
  timeout_of pm = bit_and pm 0xff0 / 2 ^ 4 % 2 ^ 16 * 10

  unfoldable pub pm_config : ℕ → PmConfig
  unfolding wakeup_of timeout_of
  pm_config pm =
      if bit_and pm 0xf % 2 ^ 8 == p.no_powersave_mode
      then record { enabled = false; wakeup_mode = none; timeout_ms = none }
      else record {
        enabled = true;
        wakeup_mode = some (wakeup_of pm);
        timeout_ms = some (timeout_of pm);
      }

  -- `none` is a configuration that is left alone.
  unfoldable pub pm_status : M Driver (Option PmConfig)
  unfolding refresh_pm pm_config
  pm_status = do
    good ← refresh_pm
    elim good [
      | false ↦ pure none
      | true ↦ (do
        perform Call.lock
        s ← get
        perform Call.unlock
        pure (some (pm_config s.dev.pm_in)))
    ]
