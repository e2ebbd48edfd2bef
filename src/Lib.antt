-- ===== src/Lib.antt =====
-- The Zephyr driver of Infineon's CYW43 radio, on the Raspberry Pi Pico W.
--
-- The driver sits between Zephyr's network stack and the cyw43-driver library (a git submodule):
-- above it are the Wi-Fi management interface and Ethernet frames, below it the SPI bus that the
-- library calls to reach the chip. A management operation checks its guards, stores its parameters
-- in the one device structure, notes the request there and submits a work item; the work item later
-- runs the request against the library and raises events.
--
-- Wifi models drivers/wifi/zephyr_cyw43/src/zephyr_cyw43_drv.c, with the types of
-- zephyr_cyw43_drv.h:
--   Wifi/Platform     the calls into the library, the kernel and the network stack, with their
--                     answers, and the build options
--   Wifi/Device       zephyr_cyw43_dev_t, and the state of a run: the device and the log of calls
--   Wifi/Join         zephyr_cyw43_connect, zephyr_cyw43_disconnect
--   Wifi/Scan         zephyr_cyw43_scan, process_cyw43_scan_result
--   Wifi/AccessPoint  zephyr_cyw43_enable_ap, zephyr_cyw43_disable_ap
--   Wifi/Work         zephyr_cyw43_request_work, zephyr_cyw43_set_pm
--   Wifi/Mgmt         the operations of zephyr_cyw43_mgmt_api that post a request
--   Wifi/Frames       zephyr_cyw43_send, cyw43_cb_process_ethernet, the statistics
--   Wifi/Status       zephyr_cyw43_iface_status, zephyr_cyw43_pm_status
--   Wifi/Start        zephyr_cyw43_init, zephyr_cyw43_iface_init, the delays, the lock's callbacks
--   Wifi/Work/Hosting a request to enable the access point, up to the calls of the library
--   Wifi/Work/Overlap a request to connect that arrives between two attempts of the one before it
--   Wifi/Balance      all of these as the entries of one interface, and what each of them keeps: the
--                     lock, the request, the scan's callback, the statistics
--   Wifi/Safe         the same entries; memory and null pointers
--   Wifi/System       the driver from power-on: any calls in any order, each run to its end, between
--                     runs of the work item, which the kernel's queue starts if it was submitted
-- Bus models drivers/wifi/zephyr_cyw43/src/cyw43_bus_pio_spi.c:
--   Bus/Word          make_cmd, SWAP32, words in memory
--   Bus/Platform      Zephyr's SPI, GPIO and pin drivers, constants of the library
--   Bus/Transfer      cyw43_spi_init, cyw43_spi_irq_enable, cyw43_spi_transfer
--   Bus/Register      the register accesses, by width and with swapped bytes; over a chip that keeps
--                     what is written to it, which is an interface, they are a memory of words
--   Bus/Block         cyw43_read_bytes, cyw43_write_bytes; over a chip that keeps blocks, which is an
--                     interface, what is written is read back
-- Picowi models drivers/wifi/zephyr_cyw43/src/cyw43_bus_picowi_pio_spi.c, the backend that a build may
-- choose instead of that of Bus, over the PicoWi library of picowi_pio:
--   Picowi/Platform   the calls of that library
--   Picowi/Transfer   cyw43_spi_init, cyw43_spi_transfer with its two ways of storing an answer
--   Picowi/Register   the register accesses
--   Picowi/Block      cyw43_read_bytes, cyw43_write_bytes
--   Picowi/Alike      the two backends side by side
-- Lock models zephyr_cyw43_lock and zephyr_cyw43_unlock of zephyr_cyw43_drv.h, taken by any number of
-- threads whose steps interleave; the kernel's mutex is an interface. In Wifi, which is sequential,
-- the two are entries of the log. Lock/Recursive is what it promises: a lock that one step enters and
-- one step leaves, and the sequences of such steps that it allows.
-- Wake models the interrupt's callback, the polling thread, cyw43_post_poll_hook and the switch of the
-- interrupt in zephyr_cyw43_drv.c, whose steps interleave with transfers; the kernel's semaphore is an
-- interface.
-- Gpio models drivers/wifi/zephyr_cyw43/src/zephyr_cyw43_gpio_drv.c and zephyr_cyw43_led_drv.c.
-- Hal models the inline functions of drivers/wifi/zephyr_cyw43/src/cyw43_configport.h.
-- Shell models drivers/wifi/zephyr_cyw43/src/zephyr_cyw43_shell.c.
-- App models app/src/main.c, whose request to join is one that Wifi/Mgmt takes.
-- Hci models drivers/wifi/zephyr_cyw43/src/zephyr_cyw43_bt_hci_drv.c; Hci/Loopback sets
-- its two directions against each other, over a chip in loopback mode, which is an interface.
-- Prelude has what the parts share: tests into Bool, lists and integers over the native naturals,
-- bit operations, C strings, and programs that may fault.
--
-- A function of the source is a program over a state: it returns a value and the next state, or
-- faults where the source asserts what is false or accesses memory outside an object. Every call out
-- of the repository is put on a log, newest first, and its answer is a function of that log, a field
-- of the record Platform, or that of the part. So the outside may answer anything, depending on all
-- that happened before, and what a function called, in which order and how often, can be stated.
--
-- Loops are structural recursion over the counter that the source counts: 5 attempts to join, 8
-- polls of the link, 50 polls of a scan, 1000 reads of the status register. The one loop whose counter
-- is not its bound, over the pairs of words in Picowi/Transfer, has one round more than the bytes to
-- read, which is enough since each round reads 8. So every run ends. Words are native naturals, with
-- the wrap-around written out where a value can reach it. A file is modelled for one build at a time:
-- the build options are the record Config.
--
-- Not modelled: log and debug output, and the callbacks that only log; PicoWi itself, a copy of a part
-- of another project; Kconfig, and the tables that register the drivers.
pub mod Prelude
pub mod Wifi
pub mod Bus
pub mod Picowi
pub mod Lock
pub mod Wake
pub mod Gpio
pub mod Hal
pub mod Shell
pub mod Hci
pub mod App
