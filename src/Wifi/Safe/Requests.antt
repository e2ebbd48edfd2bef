-- ===== src/Wifi/Safe/Requests.antt =====
-- The operations that post a request, the reports and the frames fault nowhere.
use zephyr_cyw43_driver.Prelude.{
  ℕ, ◌≤◌, ◌<◌, ◌≡◌, ◌≢◌, Bool, true, false, arith, List, ◌∷◌, Option, none, some, length, ◌++◌,
  drop, length-append, replicate, length-drop,
}
use mathlib.Core.Option
use zephyr_cyw43_driver.Prelude.Int.{pos, neg}
use zephyr_cyw43_driver.Prelude.Fault.{◌>>◌, pure, Returns}
use zephyr_cyw43_driver.Prelude.Text.{strnlen_lem, strncpy_lem}
use zephyr_cyw43_driver.Wifi.Scan.{ScanEvent, process_scan_result, call_scan_cb}
use zephyr_cyw43_driver.Wifi.Platform.{Platform, Config, Call, ScanResult, pkt_read}
use zephyr_cyw43_driver.Wifi.Device.{Driver, ConnectParams, Request, is_up, read_itf_state}
use zephyr_cyw43_driver.Wifi.Mgmt.{
  ConnectRequest, post, copy_params, mgmt_scan, mgmt_disconnect, mgmt_ap_disable, sta_linked,
  post_connect, mgmt_connect, post_ap_enable, mgmt_ap_enable, mgmt_set_pm,
}
use zephyr_cyw43_driver.Wifi.Mgmt.Guards.{Fits, Holds, Copies, Copies-Fits, copied, Holds-copied}
use zephyr_cyw43_driver.Wifi.Start.{register_cb, init, iface_init}
use zephyr_cyw43_driver.Wifi.Frames.{send, process_ethernet, drop_packet}
use zephyr_cyw43_driver.Wifi.Status.{
  IfaceMode, shown_params, iface_state, iface_mode, fetch_rssi, ssid_length, fetch_word,
  fetch_bytes, channel_itf, iface_status, pm_status, refresh_pm, shown_ssid, saving_fields,
  beacon_field, dtim_field,
}
use zephyr_cyw43_driver.Wifi.Safe.{
  Texts, WellFormed, Ready, Safe, Safe-bind, Safe-pure, Safe-get, Safe-Bool,
}

-- A request that fits the buffers of the device.
pub record FitsDevice (params : ConnectRequest) : Type 0 where
  pub ssid_room : params.ssid_length < 33
  pub ssid_inside : params.ssid_length ≤ length params.ssid
  pub psk_room : params.psk_length < 65
  pub psk_inside : params.psk_length ≤ length params.psk

pub Fits-FitsDevice :
    (old : ConnectParams) (params : ConnectRequest)
    → Texts old
    → FitsDevice params
    → Fits old params
Fits-FitsDevice old params t f = record {
  ssid_room = omega (arith, t.ssid_room, f.ssid_room);
  ssid_inside = f.ssid_inside;
  psk_room = omega (arith, t.psk_room, f.psk_room);
  psk_inside = f.psk_inside;
}

Texts-Holds :
    (old new : ConnectParams) (params : ConnectRequest)
    → Texts old
    → Holds old params new
    → Texts new
Texts-Holds old new params t h = record {
  ssid_len = _;
  psk_len = _;
  ssid = h.ssid_len;
  psk = h.psk_len;
  ssid_room = omega (arith, h.ssid_room, t.ssid_room);
  psk_room = omega (arith, h.psk_room, t.psk_room);
}

-- `posts`: a posted request is as it must be where the callback is set or the request is no scan.
module _ (p : Platform) (frame_size : ℕ) (Q : Request → Option ℕ → Type 0)
    (posts : (r : Request) (o : Option ℕ) → Ready r o → Q r o) where
  pub mgmt_scan-Safe : (active : Bool) (cb : ℕ) → Safe frame_size Q (mgmt_scan active cb)
  unfolding mgmt_scan post Safe
  mgmt_scan-Safe active cb s w = record {
    station = w.station;
    access_point = w.access_point;
    frame_room = w.frame_room;
    pending = posts _ _ (λ is_scan e. ground arith);
  }

  pub mgmt_disconnect-Safe : Safe frame_size Q mgmt_disconnect
  unfolding mgmt_disconnect post Safe
  mgmt_disconnect-Safe s w = record {
    station = w.station;
    access_point = w.access_point;
    frame_room = w.frame_room;
    pending = posts _ _ (λ is_scan. absurd is_scan);
  }

  pub mgmt_ap_disable-Safe : Safe frame_size Q mgmt_ap_disable
  unfolding mgmt_ap_disable post Safe
  mgmt_ap_disable-Safe s w = record {
    station = w.station;
    access_point = w.access_point;
    frame_room = w.frame_room;
    pending = posts _ _ (λ is_scan. absurd is_scan);
  }

  pub mgmt_set_pm-Safe :
      (c : Config) (is_state enabled : Bool) → Safe frame_size Q (mgmt_set_pm p c is_state enabled)
  unfolding mgmt_set_pm post Safe
  mgmt_set_pm-Safe c false enabled s w = w
  mgmt_set_pm-Safe c true enabled s w = record {
    station = w.station;
    access_point = w.access_point;
    frame_room = w.frame_room;
    pending = posts _ _ (λ is_scan. absurd is_scan);
  }

  post_connect-Safe :
      (params : ConnectRequest) → FitsDevice params → Safe frame_size Q (post_connect p params)
  unfolding post_connect copy_params post Safe
  post_connect-Safe params f s w =
      let c : Copies s.dev.connect_params params =
        Copies-Fits s.dev.connect_params params
          (Fits-FitsDevice s.dev.connect_params params (w.station) f) in
      rw (c.ssid.returns, c.psk.returns)
        (record {
          station =
              Texts-Holds s.dev.connect_params (copied params c) params (w.station)
                (Holds-copied params c);
          access_point = w.access_point;
          frame_room = w.frame_room;
          pending = posts _ _ (λ is_scan. absurd is_scan);
        })

  post_ap_enable-Safe :
      (params : ConnectRequest) → FitsDevice params → Safe frame_size Q (post_ap_enable p params)
  unfolding post_ap_enable copy_params post Safe
  post_ap_enable-Safe params f s w =
      let c : Copies s.dev.ap_params params =
        Copies-Fits s.dev.ap_params params
          (Fits-FitsDevice s.dev.ap_params params (w.access_point) f) in
      rw (c.ssid.returns, c.psk.returns)
        (record {
          station = w.station;
          access_point =
              Texts-Holds s.dev.ap_params (copied params c) params (w.access_point)
                (Holds-copied params c);
          frame_room = w.frame_room;
          pending = posts _ _ (λ is_scan. absurd is_scan);
        })

  sta_linked-Safe : Safe frame_size Q (sta_linked p)
  unfolding sta_linked Safe
  sta_linked-Safe s w = ground (arith, w)

  read_itf_state-Safe : Safe frame_size Q (read_itf_state p)
  unfolding Safe
  read_itf_state-Safe s w = w

  pub mgmt_connect-Safe :
      (params : ConnectRequest) → FitsDevice params → Safe frame_size Q (mgmt_connect p params)
  unfolding mgmt_connect
  mgmt_connect-Safe params f = Safe-bind _ _ _ _ sta_linked-Safe (λ linked.
      Safe-Bool _ _ _ _ linked (Safe-pure _ _ (neg p.eagain)) (
        Safe-bind _ _ _ _ read_itf_state-Safe (λ state.
          Safe-Bool _ _ _ _ (is_up state p.itf_ap) (Safe-pure _ _ (neg p.ebusy))
            (post_connect-Safe params f))))

  pub mgmt_ap_enable-Safe :
      (params : ConnectRequest) → FitsDevice params → Safe frame_size Q (mgmt_ap_enable p params)
  unfolding mgmt_ap_enable
  mgmt_ap_enable-Safe params f = Safe-bind _ _ _ _ read_itf_state-Safe (λ state.
      Safe-Bool _ _ _ _ (is_up state p.itf_ap) (Safe-pure _ _ (neg p.eagain)) (
        Safe-bind _ _ _ _ sta_linked-Safe (λ linked.
          Safe-Bool _ _ _ _ linked (Safe-pure _ _ (neg p.ebusy)) (post_ap_enable-Safe params f))))

  pub pm_status-Safe : Safe frame_size Q (pm_status p)
  unfolding pm_status refresh_pm Safe
  pm_status-Safe s w = ground (arith, w)

  module _ (c : Config) where
    pub init-Safe : Safe frame_size Q (init p c)
    unfolding init register_cb Safe
    init-Safe s w = record {
      station = w.station;
      access_point = w.access_point;
      frame_room = w.frame_room;
      pending = w.pending;
    }

    pub iface_init-Safe : Safe frame_size Q (iface_init p c)
    unfolding iface_init Safe
    iface_init-Safe s w = ground (arith, w)

    pub process_ethernet-Safe : (buf : List ℕ) → Safe frame_size Q (process_ethernet p c buf)
    unfolding process_ethernet drop_packet Safe
    process_ethernet-Safe buf s w = ground (arith, w)

    pub send-Safe :
        (len : ℕ)
        → ((l : List Call) → length (p.bytes (pkt_read len ∷ l)) ≤ frame_size)
        → Safe frame_size Q (send p c len)
    unfolding send Safe
    send-Safe len fits s w =
        let payload : List ℕ = p.bytes (pkt_read len ∷ s.log) in
        let rest : List ℕ = drop (length payload) s.dev.frame_buf in
        let room : length payload ≤ length s.dev.frame_buf =
          omega (arith, fits s.log, w.frame_room) in
        let same : length (payload ++ rest) ≡ frame_size = omega (
          arith,
          length-append payload rest,
          length-drop (length payload) s.dev.frame_buf,
          w.frame_room,
          room,
        ) in
        ground (arith, room, same, w)

  iface_state-Safe : (m : IfaceMode) → Safe frame_size Q (iface_state p m)
  unfolding iface_state Safe
  iface_state-Safe m s w = ground (arith, w)

  fetch_rssi-Safe : (m : IfaceMode) → Safe frame_size Q (fetch_rssi p m)
  unfolding fetch_rssi Safe
  fetch_rssi-Safe m s w = ground (arith, w)

  ssid_length-Safe :
      (m : IfaceMode) (s : Driver)
      → WellFormed frame_size Q s.dev
      → Safe frame_size Q (ssid_length p (shown_params p m s.dev))
  unfolding ssid_length shown_params Safe
  ssid_length-Safe IfaceMode.infra s w t v = ground (arith, w, v)
  ssid_length-Safe IfaceMode.ap s w t v = ground (arith, w, v)
  ssid_length-Safe IfaceMode.mode_unknown s w t v = v

  refresh_pm-Safe : Safe frame_size Q (refresh_pm p)
  unfolding refresh_pm Safe
  refresh_pm-Safe s w = ground (arith, w)

  fetch_word-Safe : (itf : ℕ) → Safe frame_size Q (fetch_word p (Call.ioctl_get_channel itf))
  unfolding Safe
  fetch_word-Safe itf s w = w

  fetch_bytes-Safe : Safe frame_size Q (fetch_bytes p Call.wifi_get_bssid)
  unfolding Safe
  fetch_bytes-Safe s w = w

  pub iface_status-Safe : Safe frame_size Q (iface_status p)
  unfolding iface_status
  iface_status-Safe = Safe-bind _ _ _ _ read_itf_state-Safe (λ raw.
      Safe-bind _ _ _ _ (iface_state-Safe (iface_mode p raw)) (λ state.
        Safe-bind _ _ _ _ fetch_bytes-Safe (λ bssid.
          Safe-bind _ _ _ _ (fetch_word-Safe (channel_itf p (iface_mode p raw))) (λ channel.
            Safe-bind _ _ _ _ (fetch_rssi-Safe (iface_mode p raw)) (λ rssi. Safe-get _ _ _ (λ s w.
              Safe-bind _ _ _ _ (ssid_length-Safe (iface_mode p raw) s w) (λ len.
                Safe-bind _ _ _ _ refresh_pm-Safe (λ good. Safe-get _ _ _ (λ t v.
                  Safe-pure _ _ (record {
                    mode = iface_mode p raw;
                    state = state;
                    bssid = bssid;
                    channel = channel;
                    rssi = rssi;
                    ssid =
                        Option.map (λ (c : ConnectParams). shown_ssid p state c.ssid)
                          (shown_params p (iface_mode p raw) s.dev);
                    ssid_len = len;
                    security =
                        Option.map (λ (c : ConnectParams). c.security)
                          (shown_params p (iface_mode p raw) s.dev);
                    beacon_interval = saving_fields p good t.dev.pm_in beacon_field;
                    dtim_period = saving_fields p good t.dev.pm_in dtim_field;
                  }))))))))))

  call_scan_cb-Returns :
      (r : Option ScanResult) (s : Driver)
      → s.dev.scan_cb ≢ none
      → WellFormed frame_size Q s.dev
      → Returns (λ _ t. WellFormed frame_size Q t.dev) ((call_scan_cb r >> pure (pos 0)) s)
  unfolding call_scan_cb
  call_scan_cb-Returns r s set w = ground (arith, set, w)

  -- A scan's result, once the scan's callback is set.
  pub process_scan_result-Safe :
      (r : ScanEvent) (s : Driver)
      → length r.ssid ≡ 32
      → s.dev.scan_cb ≢ none
      → WellFormed frame_size Q s.dev
      → Returns (λ _ t. WellFormed frame_size Q t.dev) (process_scan_result p (some r) s)
  unfolding process_scan_result
  process_scan_result-Safe r s size set w =
      let found = strnlen_lem r.ssid 32 (omega (arith, size)) in
      let small : found.0 ≤ 32 = found.2 in
      let copy =
        strncpy_lem (replicate 33 0) r.ssid (found.0) (omega (arith, small))
          (omega (arith, small, size)) in
      rw (found.1, copy.1) (call_scan_cb-Returns _ s set w)
