-- ===== src/Wifi/Tests.antt =====
-- Runs of the theorems on one concrete library and device.
pub mod Host
mod Station
mod Requests
mod Reports
pub mod PowerOn
