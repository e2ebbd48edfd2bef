-- ===== src/Wifi/Mgmt.antt =====
-- The operations of `zephyr_cyw43_mgmt_api` that post a request for the work item: they check,
-- store the parameters in the device, and submit.
pub mod Guards
pub mod Credentials
use zephyr_cyw43_driver.Prelude.{ℕ, Bool, true, false, ◌==◌, if◌then◌else◌, List, some}
use zephyr_cyw43_driver.Prelude.Int.{ℤ, pos, neg, negsuc}
use zephyr_cyw43_driver.Prelude.Fault.{M, ◌>>=◌, ◌>>◌, pure, get}
use zephyr_cyw43_driver.Prelude.Text.{copy_text}
use zephyr_cyw43_driver.Wifi.Platform.{Platform, Config, Call, Security, Link, join, nonet}
use zephyr_cyw43_driver.Wifi.Device.{Driver, ConnectParams, Request, perform, update_dev}
use zephyr_cyw43_driver.Wifi.Device.{checked, is_up, link_status, read_itf_state}

-- `struct wifi_connect_req_params`, what the driver reads of it
pub record ConnectRequest : Type 0 where
  pub ssid : List ℕ
  pub ssid_length : ℕ
  pub psk : List ℕ
  pub psk_length : ℕ
  pub security : Security
  pub channel : ℕ

-- The last steps of each operation: note the request and submit the work item.
unfoldable pub post : Request → M Driver (Unit {0})
post r = do update_dev (λ d. record d { req = r }); perform Call.work_submit; perform Call.unlock

-- The copy of the parameters into the device's own structure.
unfoldable pub copy_params : ConnectParams → ConnectRequest → M Driver ConnectParams
copy_params old params = do
  ssid ← checked (copy_text old.ssid params.ssid params.ssid_length)
  psk ← checked (copy_text old.psk params.psk params.psk_length)
  pure (record { ssid = ssid; psk = psk; security = params.security; channel = params.channel })

-- `link_status == CYW43_LINK_JOIN || link_status == CYW43_LINK_NONET`
abbrev pub is_linked : Link → Bool
is_linked join = true
is_linked nonet = true
is_linked _ = false

unfoldable pub mgmt_scan : Bool → ℕ → M Driver ℤ
unfolding post
mgmt_scan active cb = do
  perform Call.lock
  update_dev (λ d. record d { scan_cb = some cb })
  post (if active then Request.active_scan else Request.passive_scan)
  pure (pos 0)

unfoldable pub mgmt_disconnect : M Driver ℤ
unfolding post
mgmt_disconnect = do perform Call.lock; post Request.disconnect; pure (pos 0)

unfoldable pub mgmt_ap_disable : M Driver ℤ
unfolding post
mgmt_ap_disable = do perform Call.lock; post Request.disable_ap; pure (pos 0)

module _ (p : Platform) where
  -- Whether the station interface is up and its link joined, or joined without an address.
  unfoldable pub sta_linked : M Driver Bool
  sta_linked = do
    state ← read_itf_state p
    elim (is_up state p.itf_sta) [
      | false ↦ pure false
      | true ↦ (do status ← link_status p; pure (is_linked status))
    ]

  -- The part of `zephyr_cyw43_mgmt_connect` behind its guards.
  unfoldable pub post_connect : ConnectRequest → M Driver ℤ
  unfolding copy_params post
  post_connect params = do
    perform Call.lock
    s ← get
    copy ← copy_params s.dev.connect_params params
    update_dev (λ d. record d { connect_params = copy })
    post Request.connect
    pure (pos 0)

  unfoldable pub mgmt_connect : ConnectRequest → M Driver ℤ
  unfolding sta_linked post_connect
  mgmt_connect params = do
    linked ← sta_linked
    elim linked [
      | true ↦ pure (neg p.eagain)
      | false ↦ (do
        state ← read_itf_state p
        elim (is_up state p.itf_ap) [ true ↦ pure (neg p.ebusy) | false ↦ post_connect params ])
    ]

  unfoldable pub post_ap_enable : ConnectRequest → M Driver ℤ
  unfolding copy_params post
  post_ap_enable params = do
    perform Call.lock
    s ← get
    copy ← copy_params s.dev.ap_params params
    update_dev (λ d. record d { ap_params = copy })
    post Request.enable_ap
    pure (pos 0)

  unfoldable pub mgmt_ap_enable : ConnectRequest → M Driver ℤ
  unfolding sta_linked post_ap_enable
  mgmt_ap_enable params = do
    state ← read_itf_state p
    elim (is_up state p.itf_ap) [
      | true ↦ pure (neg p.eagain)
      | false ↦ (do
        linked ← sta_linked
        elim linked [ true ↦ pure (neg p.ebusy) | false ↦ post_ap_enable params ])
    ]

  -- The mode that a request to save power or not asks for.
  unfoldable pub pm_mode : Config → Bool → ℕ
  pm_mode c enabled =
      if enabled
      then (if c.powersave_mode == p.no_powersave_mode
          then p.pm2_powersave_mode
          else c.powersave_mode)
      else p.no_powersave_mode

  -- `is_state` is `params->type == WIFI_PS_PARAM_STATE`.
  unfoldable pub mgmt_set_pm : Config → Bool → Bool → M Driver ℤ
  unfolding pm_mode post
  mgmt_set_pm c false enabled = pure (negsuc 0)
  mgmt_set_pm c true enabled = do
    perform Call.lock
    update_dev (λ d. record d {
      pm_out =
          p.pm_value (pm_mode c enabled) c.pm2_sleep_ret_ms c.li_beacon_period c.li_dtim_period
            c.li_assoc;
    })
    post Request.set_pm
    pure (pos 0)
