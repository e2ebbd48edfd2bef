-- ===== src/Wifi/Tests/Reports.antt =====
-- Runs of what is reported: scan results, statistics, the power-saving word, the access point.
use zephyr_cyw43_driver.Prelude.{
  ◌≡◌, ◌⊎◌, ◌*◌, ◌/◌, ◌^◌, arith, refl, suc, true, false, List, [], ◌∷◌, ◌==◌, ◌||◌, none,
  if◌then◌else◌, length, some, ℕ,
}
use zephyr_cyw43_driver.Prelude.Int.{pos, neg, is_neg, is_zero}
use zephyr_cyw43_driver.Prelude.Fault.{Returns}
use zephyr_cyw43_driver.Wifi.Platform.{
  Platform, Call, psk, unknown, pkt_read, pkt_rx_alloc, pkt_write, recv_data, send_ethernet,
}
use zephyr_cyw43_driver.Wifi.Device.{Driver, Device, Request, is_up}
use zephyr_cyw43_driver.Wifi.Counts.{unrefs}
use zephyr_cyw43_driver.Wifi.AccessPoint.{disable_ap}
use zephyr_cyw43_driver.Wifi.AccessPoint.Release.{Remembers, restored, disable_ap_lem}
use zephyr_cyw43_driver.Wifi.Scan.{scan_security, to_int8}
use zephyr_cyw43_driver.Wifi.Scan.Reported.{compared, scan_security_lem}
use zephyr_cyw43_driver.Wifi.Frames.{
  send, process_ethernet, count_sent, count_received, count_tx_error, count_rx_error,
}
use zephyr_cyw43_driver.Wifi.Frames.Accounting.{counted, process_ethernet_lem, send_lem}
use zephyr_cyw43_driver.Wifi.Status.{listen_interval, pm_status}
use zephyr_cyw43_driver.Wifi.Status.PowerSave.{packed, pm_status-packed}
use zephyr_cyw43_driver.Wifi.Tests.Host.{host, full_host, config, driver}

host-Remembers : Remembers host
host-Remembers = record { assigned = λ v l. refl; dormant = λ l. refl; stopped = λ l. refl }

disable_ap_lem_example :
    let s : Driver = driver Request.disable_ap in
    Returns
      (λ rv s'.
        (is_up (host.itf_state s'.log) host.itf_ap ≡ false)
        × (is_up (host.itf_state s'.log) host.itf_sta
            ≡ is_up (host.itf_state (restored host s.log)) host.itf_sta)
        × (s'.dev ≡ s.dev))
      (disable_ap host config s)
disable_ap_lem_example =
    disable_ap_lem host config (driver Request.disable_ap) host-Remembers (omega arith)
      (omega arith) (omega arith)

scan_security_lem_example : scan_security host 0x40_0004 ≡ (
    if (compared 0x40_0004 == host.auth_wpa2_aes_psk)
      || (compared 0x40_0004 == host.auth_wpa2_mixed_psk)
    then psk
    else unknown)
scan_security_lem_example =
    scan_security_lem host 0x40_0004 (omega arith) (omega arith) (omega arith)

-- The library reports the mode 2, 200 ms of sleep, and the periods 1, 3 and 10.
abbrev saving_host : Platform
saving_host = let p : Platform = host in record p { word = λ l. packed 2 20 1 3 10 }

pm_status-packed_example :
    let s : Driver = driver Request.idle in
    let d : Device = s.dev in
    let l : List Call = Call.wifi_get_pm ∷ s.log in
    pm_status saving_host s ≡ (
      if is_zero (saving_host.ret l)
      then some (
        some (record {
          enabled = true;
          wakeup_mode = some listen_interval;
          timeout_ms = some (20 * 10);
        }),
        record { dev = record d { pm_in = packed 2 20 1 3 10 }; log = Call.unlock ∷ Call.lock ∷ l },
      )
      else some (none, record { dev = record d { pm_in = packed 2 20 1 3 10 }; log = l }))
pm_status-packed_example =
    pm_status-packed saving_host 2 20 1 3 10 (omega arith) (omega arith) (omega arith) (omega arith)
      (omega arith) (driver Request.idle) refl

process_ethernet_lem_example :
    let buf : List ℕ = 1 ∷ 2 ∷ [] in
    let s : Driver = driver Request.idle in
    let alloc : List Call = pkt_rx_alloc (length buf) ∷ s.log in
    let write : List Call = pkt_write buf ∷ alloc in
    let recv : List Call = recv_data ∷ write in
    Returns
      (λ _ s'.
        ((s'.dev ≡ s.dev)
          × (unrefs s'.log ≡ unrefs s.log)
          × ((s.dev.iface ≡ false) ⊎ (is_zero (full_host.ret alloc) ≡ true)))
        ⊎ ((s.dev.iface ≡ true)
            × (is_zero (full_host.ret alloc) ≡ false)
            × (s'.dev ≡ counted config count_rx_error s.dev)
            × (unrefs s'.log ≡ suc (unrefs s.log))
            × ((is_neg (full_host.ret write) ≡ true) ⊎ (is_neg (full_host.ret recv) ≡ true)))
        ⊎ ((s.dev.iface ≡ true)
            × (is_zero (full_host.ret alloc) ≡ false)
            × (s'.dev ≡ counted config (count_received (length buf)) s.dev)
            × (unrefs s'.log ≡ unrefs s.log)
            × (is_neg (full_host.ret write) ≡ false)
            × (is_neg (full_host.ret recv) ≡ false)))
      (process_ethernet full_host config buf s)
process_ethernet_lem_example =
    process_ethernet_lem full_host config (1 ∷ 2 ∷ []) (driver Request.idle)

send_lem_example :
    let s : Driver = driver Request.idle in
    let read : List Call = pkt_read 3 ∷ s.log in
    let itf : ℕ =
      if host.itf_state read / 2 ^ host.itf_ap == 0 then host.itf_sta else host.itf_ap in
    let sent : List Call = send_ethernet itf 3 (host.bytes read) ∷ read in
    Returns
      (λ rv s'.
        ((is_neg (host.ret read) ≡ true)
          × (rv ≡ neg host.eio)
          × (s'.log ≡ read)
          × (s'.dev ≡ counted config count_tx_error s.dev))
        ⊎ ((is_neg (host.ret read) ≡ false)
            × (rv ≡ host.ret sent)
            × (s'.log ≡ sent)
            × (s'.dev.stats ≡ (counted config (count_sent 3) s.dev).stats)))
      (send host config 3 s)
send_lem_example = send_lem host config 3 (driver Request.idle) refl (omega arith)

-- The conversion wraps around at both ends.
to_int8_runs :
    (to_int8 (pos 200) ≡ neg 56) × (to_int8 (neg 70) ≡ neg 70) × (to_int8 (neg 200) ≡ pos 56)
to_int8_runs = (refl, refl, refl)
