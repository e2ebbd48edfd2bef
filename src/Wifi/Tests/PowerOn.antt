-- ===== src/Wifi/Tests/PowerOn.antt =====
-- Runs from power-on: a request to disconnect, and the work item on it.
use zephyr_cyw43_driver.Prelude.{◌≡◌, refl, arith, true, false, List, [], ◌∷◌, some, replicate}
use zephyr_cyw43_driver.Wifi.Platform.{Call}
use zephyr_cyw43_driver.Wifi.Device.{Device, Driver, Request, Stats}
use zephyr_cyw43_driver.Wifi.Frames.{send, wifi_stats}
use zephyr_cyw43_driver.Wifi.System.Counted.{Exact, wifi_stats-Exact}
use zephyr_cyw43_driver.Wifi.Counts.{locks, unlocks}
use zephyr_cyw43_driver.Wifi.Balance.Entries.{Entry, enter}
use zephyr_cyw43_driver.Wifi.Mgmt.{mgmt_disconnect, post}
use zephyr_cyw43_driver.Wifi.Start.{init, iface_init, register_cb}
use zephyr_cyw43_driver.Wifi.Work.{serve, request_work}
use zephyr_cyw43_driver.Wifi.System.{
  System, Event, called, worked, pending, zero_device, powered, boot, Runs,
}
use zephyr_cyw43_driver.Wifi.System.Reached.{mailbox}
use zephyr_cyw43_driver.Wifi.System.Served.{Honest, Runs-ends, Runs-mailbox, request_work-Runs}
use zephyr_cyw43_driver.Wifi.Tests.Host.{idle_host, config, host-reads}

abbrev pub booted : Driver
booted =
    let d : Device = zero_device 64 in
    record {
      dev = record d { iface = true };
      log =
          Call.unlock
          ∷ Call.dormant_on
          ∷ Call.carrier_on
          ∷ Call.ethernet_init
          ∷ Call.set_link_addr
          ∷ Call.set_wifi_type
          ∷ Call.lock
          ∷ Call.wifi_pm (idle_host.pm_value 2 20 1 1 10)
          ∷ Call.wifi_set_up 0 true
          ∷ Call.poll_thread_create
          ∷ Call.set_irq_enabled true
          ∷ Call.add_callback
          ∷ Call.init_callback
          ∷ Call.wake_pin_configure
          ∷ Call.library_init
          ∷ Call.shell_register
          ∷ Call.work_init
          ∷ Call.work_queue_start
          ∷ Call.sem_init
          ∷ Call.mutex_init
          ∷ [];
    }

abbrev pub at_start : System
at_start = record { driver = booted; queued = false }

pub Runs-at_start : Runs idle_host config 64 [] at_start
unfolding boot enter init iface_init register_cb
Runs-at_start = Runs.start refl

abbrev asked : System
asked =
    let d : Device = booted.dev in
    record {
      driver = record {
        dev = record d { req = Request.disconnect };
        log = Call.unlock ∷ Call.work_submit ∷ Call.lock ∷ booted.log;
      };
      queued = true;
    }

abbrev asked_once : List Event
asked_once = called Entry.at_disconnect true ∷ []

Runs-asked : Runs idle_host config 64 asked_once asked
unfolding enter mgmt_disconnect post
Runs-asked = Runs.call Runs-at_start Entry.at_disconnect tt refl

Runs-ends_example :
    ((t : Driver) × (boot idle_host config (powered 64) ≡ some (tt, t)))
    × (t : Driver) × (enter idle_host config Entry.at_pm_status asked.driver ≡ some (tt, t))
    × (locks t.log ≡ unlocks t.log)
Runs-ends_example =
    Runs-ends idle_host config 64 host-reads asked_once asked Entry.at_pm_status Runs-asked tt

Runs-mailbox_example : (mailbox asked ≡ pending asked_once) × Honest asked_once
Runs-mailbox_example = Runs-mailbox idle_host config 64 host-reads asked_once asked Runs-asked

request_work-Runs_example :
    (t : Driver) × (request_work idle_host config asked.driver ≡ some (tt, t))
    × (serve idle_host config Request.disconnect asked.driver ≡ some (tt, t))
    × Runs idle_host config 64
        (worked Request.disconnect ∷ asked_once)
        (record { driver = t; queued = false })
request_work-Runs_example =
    request_work-Runs idle_host config 64 host-reads asked_once asked Request.disconnect Runs-asked
      refl

-- A frame of three bytes was sent.
abbrev sent : System
sent =
    let d : Device = booted.dev in
    let x : Stats = d.stats in
    record {
      driver = record {
        dev = record d {
          stats = record x { bytes_sent = 3; pkts_tx = 1 };
          frame_buf = 7 ∷ 7 ∷ 7 ∷ replicate 61 0;
        };
        log = Call.send_ethernet 0 3 (7 ∷ 7 ∷ 7 ∷ []) ∷ Call.pkt_read 3 ∷ booted.log;
      };
      queued = false;
    }

Runs-sent : Runs idle_host config 64 (called (Entry.at_send 3) false ∷ []) sent
unfolding enter send
Runs-sent = Runs.call Runs-at_start (Entry.at_send 3) (omega arith) refl

wifi_stats-Exact_example : Exact (wifi_stats sent.driver.dev) sent.driver.log
wifi_stats-Exact_example =
    wifi_stats-Exact idle_host config refl 64 (called (Entry.at_send 3) false ∷ []) sent Runs-sent
