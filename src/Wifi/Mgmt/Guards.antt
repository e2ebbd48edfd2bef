-- ===== src/Wifi/Mgmt/Guards.antt =====
-- When `zephyr_cyw43_mgmt_connect` and `zephyr_cyw43_mgmt_ap_enable` accept a request, and what
-- they store.
use zephyr_cyw43_driver.Prelude.{
  ◌≤◌, ◌<◌, ◌≡◌, ◌⊎◌, arith, refl, Bool, true, false, List, ◌∷◌, ◌&&◌,
}
use zephyr_cyw43_driver.Prelude.{length, take, some, if◌then◌else◌}
use zephyr_cyw43_driver.Prelude.Int.{pos, neg}
use zephyr_cyw43_driver.Prelude.Fault.{Returns}
use zephyr_cyw43_driver.Prelude.Text.{text_of, strlen, copy_text, Copied, copy_text_lem}
use zephyr_cyw43_driver.Wifi.Platform.{Platform, Call, wifi_link_status, lock, unlock, work_submit}
use zephyr_cyw43_driver.Wifi.Device.{Driver, Device, ConnectParams, Request, is_up}
use zephyr_cyw43_driver.Wifi.Mgmt.{ConnectRequest, is_linked, sta_linked}
use zephyr_cyw43_driver.Wifi.Mgmt.{post_connect, mgmt_connect, post_ap_enable, mgmt_ap_enable}

-- The lengths of a request stay below the device's buffers and inside the caller's.
pub record Fits (old : ConnectParams) (params : ConnectRequest) : Type 0 where
  pub ssid_room : params.ssid_length < length old.ssid
  pub ssid_inside : params.ssid_length ≤ length params.ssid
  pub psk_room : params.psk_length < length old.psk
  pub psk_inside : params.psk_length ≤ length params.psk

-- The request's SSID and key stand in the buffers, terminated, with its security and channel.
pub record Holds (old : ConnectParams) (params : ConnectRequest) (new : ConnectParams)
    : Type 0 where
  pub ssid_room : length new.ssid ≡ length old.ssid
  pub psk_room : length new.psk ≡ length old.psk
  pub ssid : text_of new.ssid ≡ text_of (take params.ssid_length params.ssid)
  pub psk : text_of new.psk ≡ text_of (take params.psk_length params.psk)
  pub ssid_len : strlen new.ssid ≡ some (length (text_of (take params.ssid_length params.ssid)))
  pub psk_len : strlen new.psk ≡ some (length (text_of (take params.psk_length params.psk)))
  pub security : new.security ≡ params.security
  pub channel : new.channel ≡ params.channel

-- Both copies of a request that fits.
pub record Copies (old : ConnectParams) (params : ConnectRequest) : Type 0 where
  pub ssid :
      Copied old.ssid params.ssid params.ssid_length
        (copy_text old.ssid params.ssid params.ssid_length)
  pub psk :
      Copied old.psk params.psk params.psk_length (copy_text old.psk params.psk params.psk_length)

pub Copies-Fits :
    (old : ConnectParams) (params : ConnectRequest) → Fits old params → Copies old params
Copies-Fits old params f = record {
  ssid = copy_text_lem old.ssid params.ssid params.ssid_length f.ssid_room f.ssid_inside;
  psk = copy_text_lem old.psk params.psk params.psk_length f.psk_room f.psk_inside;
}

abbrev pub copied :
    {old : ConnectParams} (params : ConnectRequest) → Copies old params → ConnectParams
copied params c = record {
  ssid = c.ssid.out;
  psk = c.psk.out;
  security = params.security;
  channel = params.channel;
}

pub Holds-copied :
    {old : ConnectParams} (params : ConnectRequest) (c : Copies old params)
    → Holds old params (copied params c)
Holds-copied params c = record {
  ssid_room = c.ssid.same_length;
  psk_room = c.psk.same_length;
  ssid = c.ssid.text;
  psk = c.psk.text;
  ssid_len = c.ssid.measured;
  psk_len = c.psk.measured;
  security = refl;
  channel = refl;
}

-- From the log `l` on, the work item was submitted once, under the lock.
abbrev pub Submitted : List Call → List Call → Type 0
Submitted l l' = l' ≡ unlock ∷ work_submit ∷ lock ∷ l

-- What a request `r` that was accepted leaves: `old` and `put` are the parameters of its mode.
pub record Stored (r : Request) (old : ConnectParams) (put : ConnectParams → Device)
    (params : ConnectRequest) (l : List Call) (s' : Driver) : Type 0 where
  pub new : ConnectParams
  pub holds : Holds old params new
  pub dev : let d : Device = put new in s'.dev ≡ record d { req = r }
  pub submitted : Submitted l s'.log

abbrev pub with_connect_params : Device → ConnectParams → Device
with_connect_params d new = record d { connect_params = new }

abbrev pub with_ap_params : Device → ConnectParams → Device
with_ap_params d new = record d { ap_params = new }

-- What the library answers at the log `l`: whether the station is up and its link is joined, or
-- joined without an address; and the log once it has been asked.
abbrev pub station_linked : Platform → List Call → Bool
station_linked p l = is_up (p.itf_state l) p.itf_sta && is_linked (p.link (wifi_link_status ∷ l))

abbrev pub asked : Platform → List Call → List Call
asked p l = if is_up (p.itf_state l) p.itf_sta then wifi_link_status ∷ l else l

module _ (p : Platform) where
  sta_linked_lem :
      (s : Driver)
      → sta_linked p s ≡ some (station_linked p s.log, record s { log = asked p s.log })
  unfolding sta_linked
  sta_linked_lem s = ground arith

  module _ (params : ConnectRequest) (s : Driver) (l : List Call) where
    abbrev pub ConnectStored : Driver → Type 0
    ConnectStored = Stored Request.connect s.dev.connect_params (with_connect_params s.dev) params l

    abbrev pub ApStored : Driver → Type 0
    ApStored = Stored Request.enable_ap s.dev.ap_params (with_ap_params s.dev) params l

    post_connect-Stored :
        Copies s.dev.connect_params params
        → Returns
            (λ rv s'. (rv ≡ pos 0) × ConnectStored s')
            (post_connect p params (record s { log = l }))
    unfolding post_connect
    post_connect-Stored c =
        rw (c.ssid.returns, c.psk.returns)
          (
            refl,
            record {
              new = copied params c;
              holds = Holds-copied params c;
              dev = refl;
              submitted = refl;
            },
          )

    post_ap_enable-Stored :
        Copies s.dev.ap_params params
        → Returns
            (λ rv s'. (rv ≡ pos 0) × ApStored s')
            (post_ap_enable p params (record s { log = l }))
    unfolding post_ap_enable
    post_ap_enable-Stored c =
        rw (c.ssid.returns, c.psk.returns)
          (
            refl,
            record {
              new = copied params c;
              holds = Holds-copied params c;
              dev = refl;
              submitted = refl;
            },
          )

  -- For a request that fits the buffers `zephyr_cyw43_mgmt_connect` always returns: -EAGAIN if the
  -- station is linked, else -EBUSY if the access point is up, both with the device as it was and
  -- no call but the query of the link; else 0, with the credentials stored, the request set to
  -- connect, and the work item submitted once, under the lock.
  pub mgmt_connect_lem :
      (params : ConnectRequest) (s : Driver)
      → Fits s.dev.connect_params params
      → let l = asked p s.log in
        let linked = station_linked p s.log in
        let up = is_up (p.itf_state l) p.itf_ap in
        Returns
          (λ rv s'.
            ((linked ≡ true) × (rv ≡ neg p.eagain) × (s' ≡ record s { log = l }))
            ⊎ ((linked ≡ false) × (up ≡ true) × (rv ≡ neg p.ebusy) × (s' ≡ record s { log = l }))
            ⊎ ((linked ≡ false) × (up ≡ false) × (rv ≡ pos 0) × ConnectStored params s l s'))
          (mgmt_connect p params s)
  unfolding mgmt_connect
  mgmt_connect_lem params s f =
      ground (arith, post_connect-Stored params s (asked p s.log) (Copies-Fits _ params f))

  -- For a request that fits the buffers `zephyr_cyw43_mgmt_ap_enable` always returns: -EAGAIN if
  -- the access point is up, with no call made, else -EBUSY if the station is linked, both with the
  -- device as it was; else 0, with the credentials stored, the request set to enable the access
  -- point, and the work item submitted once, under the lock.
  pub mgmt_ap_enable_lem :
      (params : ConnectRequest) (s : Driver)
      → Fits s.dev.ap_params params
      → let l = asked p s.log in
        let linked = station_linked p s.log in
        let up = is_up (p.itf_state s.log) p.itf_ap in
        Returns
          (λ rv s'.
            ((up ≡ true) × (rv ≡ neg p.eagain) × (s' ≡ s))
            ⊎ ((up ≡ false) × (linked ≡ true) × (rv ≡ neg p.ebusy) × (s' ≡ record s { log = l }))
            ⊎ ((up ≡ false) × (linked ≡ false) × (rv ≡ pos 0) × ApStored params s l s'))
          (mgmt_ap_enable p params s)
  unfolding mgmt_ap_enable
  mgmt_ap_enable_lem params s f =
      ground (arith, post_ap_enable-Stored params s (asked p s.log) (Copies-Fits _ params f))
