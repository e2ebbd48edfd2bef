-- ===== src/Bus.antt =====
-- drivers/wifi/zephyr_cyw43/src/cyw43_bus_pio_spi.c, the SPI bus below the cyw43-driver library.
pub mod Word
pub mod Platform
pub mod Transfer
pub mod Register
pub mod Block
mod Tests
