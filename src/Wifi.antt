-- ===== src/Wifi.antt =====
-- drivers/wifi/zephyr_cyw43/src/zephyr_cyw43_drv.c, the network and Wi-Fi management driver.
pub mod Platform
pub mod Device
pub mod Counts
pub mod Join
pub mod Scan
pub mod AccessPoint
pub mod Work
pub mod Mgmt
pub mod Frames
pub mod Status
pub mod Start
pub mod Balance
pub mod Safe
pub mod System
pub mod Tests
