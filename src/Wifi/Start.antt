-- ===== src/Wifi/Start.antt =====
-- How the driver starts: `zephyr_cyw43_init`, which the kernel calls first,
-- `zephyr_cyw43_iface_init`, which the network stack calls then, and the small functions that the
-- library calls back.
use zephyr_cyw43_driver.Prelude.{ℕ, ◌*◌, ◌%◌, ◌^◌, true}
use zephyr_cyw43_driver.Prelude.Int.{ℤ, pos}
use zephyr_cyw43_driver.Prelude.Fault.{M, ◌>>=◌, ◌>>◌, pure, when}
use zephyr_cyw43_driver.Wifi.Platform.{Platform, Config, Call}
use zephyr_cyw43_driver.Wifi.Device.{Driver, Role, perform, invoke, update_dev}

unfoldable pub thread_enter : M Driver (Unit {0})
thread_enter = perform Call.lock

unfoldable pub thread_exit : M Driver (Unit {0})
thread_exit = perform Call.unlock

-- `ms * 1000` is an unsigned 32-bit product.
unfoldable pub delay_ms : ℕ → M Driver (Unit {0})
delay_ms ms = perform (Call.busy_wait (ms * 1000 % 2 ^ 32))

unfoldable pub sleep_ms : ℕ → M Driver (Unit {0})
sleep_ms ms = perform (Call.sleep ms)

unfoldable pub delay_us : ℕ → M Driver (Unit {0})
delay_us us = perform (Call.busy_wait us)

unfoldable pub post_poll_hook : M Driver (Unit {0})
post_poll_hook = perform (Call.set_irq_enabled true)

module _ (p : Platform) (c : Config) where
  -- Failures of the first two calls are only logged.
  unfoldable pub register_cb : M Driver (Unit {0})
  register_cb = do
    configured ← invoke p Call.wake_pin_configure
    perform Call.init_callback
    added ← invoke p Call.add_callback
    perform (Call.set_irq_enabled true)

  unfoldable pub init : M Driver ℤ
  unfolding register_cb
  init = do
    perform Call.mutex_init
    update_dev (λ d. record d { role = Role.client })
    perform Call.sem_init
    perform Call.work_queue_start
    perform Call.work_init
    perform Call.shell_register
    perform Call.library_init
    register_cb
    perform Call.poll_thread_create
    perform (Call.wifi_set_up p.itf_sta true)
    perform (
        Call.wifi_pm (
          p.pm_value c.powersave_mode c.pm2_sleep_ret_ms c.li_beacon_period c.li_dtim_period
            c.li_assoc))
    pure (pos 0)

  unfoldable pub iface_init : M Driver (Unit {0})
  iface_init = do
    perform Call.lock
    perform Call.set_wifi_type
    update_dev (λ d. record d { iface = true })
    perform Call.set_link_addr
    perform Call.ethernet_init
    perform Call.carrier_on
    perform Call.dormant_on
    when c.sta_auto_dhcpv4 (perform Call.dhcpv4_stop)
    perform Call.unlock
