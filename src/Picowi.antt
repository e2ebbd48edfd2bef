-- ===== src/Picowi.antt =====
-- The other backend of the SPI bus, chosen when the driver is built:
-- drivers/wifi/zephyr_cyw43/src/cyw43_bus_picowi_pio_spi.c, over the PicoWi library.
pub mod Platform
pub mod Transfer
pub mod Register
pub mod Block
pub mod Alike
mod Tests
