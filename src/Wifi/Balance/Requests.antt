-- ===== src/Wifi/Balance/Requests.antt =====
-- The operations that post a request, and the reports.
use zephyr_cyw43_driver.Prelude.{ℕ, ◌≡◌, Bool, if◌then◌else◌, arith, List, Option}
use mathlib.Core.Option
use zephyr_cyw43_driver.Prelude.Int.{neg}
use zephyr_cyw43_driver.Wifi.Platform.{Platform, Config, Call}
use zephyr_cyw43_driver.Wifi.Device.{Request, is_up, read_itf_state, ConnectParams}
use zephyr_cyw43_driver.Wifi.Balance.{
  Kind, frames, posts, Keeps, Keeps-bind, Keeps-pure, Keeps-get, Keeps-Bool,
}
use zephyr_cyw43_driver.Wifi.Mgmt.{
  ConnectRequest, post, copy_params, mgmt_scan, mgmt_disconnect, mgmt_ap_disable, sta_linked,
  post_connect, mgmt_connect, post_ap_enable, mgmt_ap_enable, mgmt_set_pm,
}
use zephyr_cyw43_driver.Wifi.Start.{register_cb, init, iface_init}
use zephyr_cyw43_driver.Wifi.Frames.{send, process_ethernet, drop_packet}
use zephyr_cyw43_driver.Wifi.Status.{
  IfaceMode, shown_ssid, saving_fields, beacon_field, dtim_field, channel_itf, iface_status,
  iface_state, iface_mode, shown_params, ssid_length, fetch_rssi, fetch_word, fetch_bytes,
  pm_status, refresh_pm,
}

pub mgmt_scan-Keeps :
    (o : Kind) (active : Bool) (cb : ℕ)
    → o ≡ posts (if active then Request.active_scan else Request.passive_scan)
    → Keeps o (mgmt_scan active cb)
unfolding mgmt_scan post Keeps
mgmt_scan-Keeps o active cb h s = ground arith

pub mgmt_disconnect-Keeps : (o : Kind) → o ≡ posts Request.disconnect → Keeps o mgmt_disconnect
unfolding mgmt_disconnect post Keeps
mgmt_disconnect-Keeps o h s = ground arith

pub mgmt_ap_disable-Keeps : (o : Kind) → o ≡ posts Request.disable_ap → Keeps o mgmt_ap_disable
unfolding mgmt_ap_disable post Keeps
mgmt_ap_disable-Keeps o h s = ground arith

module _ (p : Platform) (o : Kind) where
  read_itf_state-Keeps : Keeps o (read_itf_state p)
  unfolding Keeps
  read_itf_state-Keeps s = ground arith

  sta_linked-Keeps : Keeps o (sta_linked p)
  unfolding sta_linked Keeps
  sta_linked-Keeps s = ground arith

  post_connect-Keeps :
      (params : ConnectRequest) → o ≡ posts Request.connect → Keeps o (post_connect p params)
  unfolding post_connect copy_params post Keeps
  post_connect-Keeps params h s = ground arith

  post_ap_enable-Keeps :
      (params : ConnectRequest) → o ≡ posts Request.enable_ap → Keeps o (post_ap_enable p params)
  unfolding post_ap_enable copy_params post Keeps
  post_ap_enable-Keeps params h s = ground arith

  pub mgmt_connect-Keeps :
      (params : ConnectRequest) → o ≡ posts Request.connect → Keeps o (mgmt_connect p params)
  unfolding mgmt_connect
  mgmt_connect-Keeps params h = Keeps-bind o _ _ sta_linked-Keeps (λ linked.
      Keeps-Bool o _ _ linked (Keeps-pure o (neg p.eagain)) (
        Keeps-bind o _ _ (read_itf_state-Keeps) (λ state.
          Keeps-Bool o _ _ (is_up state p.itf_ap) (Keeps-pure o (neg p.ebusy))
            (post_connect-Keeps params h))))

  pub mgmt_ap_enable-Keeps :
      (params : ConnectRequest) → o ≡ posts Request.enable_ap → Keeps o (mgmt_ap_enable p params)
  unfolding mgmt_ap_enable
  mgmt_ap_enable-Keeps params h = Keeps-bind o _ _ (read_itf_state-Keeps) (λ state.
      Keeps-Bool o _ _ (is_up state p.itf_ap) (Keeps-pure o (neg p.eagain)) (
        Keeps-bind o _ _ sta_linked-Keeps (λ linked.
          Keeps-Bool o _ _ linked (Keeps-pure o (neg p.ebusy)) (post_ap_enable-Keeps params h))))

  module _ (c : Config) where
    pub mgmt_set_pm-Keeps :
        (is_state enabled : Bool)
        → o ≡ posts Request.set_pm
        → Keeps o (mgmt_set_pm p c is_state enabled)
    unfolding mgmt_set_pm post Keeps
    mgmt_set_pm-Keeps is_state enabled h s = ground arith

    pub init-Keeps : Keeps o (init p c)
    unfolding init register_cb Keeps
    init-Keeps s = ground arith

    pub iface_init-Keeps : Keeps o (iface_init p c)
    unfolding iface_init Keeps
    iface_init-Keeps s = ground arith

    pub send-Keeps : (len : ℕ) → o ≡ frames → Keeps o (send p c len)
    unfolding send Keeps
    send-Keeps len h s = ground arith

    pub process_ethernet-Keeps : (buf : List ℕ) → o ≡ frames → Keeps o (process_ethernet p c buf)
    unfolding process_ethernet drop_packet Keeps
    process_ethernet-Keeps buf h s = ground arith

  pub pm_status-Keeps : Keeps o (pm_status p)
  unfolding pm_status refresh_pm Keeps
  pm_status-Keeps s = ground arith

  iface_state-Keeps : (m : IfaceMode) → Keeps o (iface_state p m)
  unfolding iface_state Keeps
  iface_state-Keeps m s = ground arith

  fetch_rssi-Keeps : (m : IfaceMode) → Keeps o (fetch_rssi p m)
  unfolding fetch_rssi Keeps
  fetch_rssi-Keeps m s = ground arith

  ssid_length-Keeps : (params : Option ConnectParams) → Keeps o (ssid_length p params)
  unfolding ssid_length Keeps
  ssid_length-Keeps params s = ground arith

  refresh_pm-Keeps : Keeps o (refresh_pm p)
  unfolding refresh_pm Keeps
  refresh_pm-Keeps s = ground arith

  fetch_word-Keeps : (itf : ℕ) → Keeps o (fetch_word p (Call.ioctl_get_channel itf))
  unfolding Keeps
  fetch_word-Keeps itf s = ground arith

  fetch_bytes-Keeps : Keeps o (fetch_bytes p Call.wifi_get_bssid)
  unfolding Keeps
  fetch_bytes-Keeps s = ground arith

  pub iface_status-Keeps : Keeps o (iface_status p)
  unfolding iface_status
  iface_status-Keeps = Keeps-bind o _ _ read_itf_state-Keeps (λ raw.
      Keeps-bind o _ _ (iface_state-Keeps (iface_mode p raw)) (λ state.
        Keeps-bind o _ _ fetch_bytes-Keeps (λ bssid.
          Keeps-bind o _ _ (fetch_word-Keeps (channel_itf p (iface_mode p raw))) (λ channel.
            Keeps-bind o _ _ (fetch_rssi-Keeps (iface_mode p raw)) (λ rssi. Keeps-get o _ (λ s.
              Keeps-bind o _ _ (ssid_length-Keeps (shown_params p (iface_mode p raw) s.dev)) (λ len.
                Keeps-bind o _ _ refresh_pm-Keeps (λ good. Keeps-get o _ (λ t.
                  Keeps-pure o (record {
                    mode = iface_mode p raw;
                    state = state;
                    bssid = bssid;
                    channel = channel;
                    rssi = rssi;
                    ssid =
                        Option.map (λ (c : ConnectParams). shown_ssid p state c.ssid)
                          (shown_params p (iface_mode p raw) s.dev);
                    ssid_len = len;
                    security =
                        Option.map (λ (c : ConnectParams). c.security)
                          (shown_params p (iface_mode p raw) s.dev);
                    beacon_interval = saving_fields p good t.dev.pm_in beacon_field;
                    dtim_period = saving_fields p good t.dev.pm_in dtim_field;
                  }))))))))))
