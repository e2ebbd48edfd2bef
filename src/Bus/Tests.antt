-- ===== src/Bus/Tests.antt =====
-- Runs of the theorems on one concrete chip and its SPI driver.
mod Chip
mod Transfers
mod Memory
mod Blocks
