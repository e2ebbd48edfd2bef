-- ===== src/Bus/Tests/Chip.antt =====
-- A chip whose every register reads 32, behind an SPI driver that always succeeds.
use zephyr_cyw43_driver.Prelude.{ℕ, ◌-◌, false, List, [], ◌∷◌, ◌++◌, replicate}
use zephyr_cyw43_driver.Prelude.Int.{pos}
use zephyr_cyw43_driver.Bus.Platform.{BusPlatform, BusCall, transceive}
use zephyr_cyw43_driver.Bus.Transfer.{Bus}

abbrev pub answer : List BusCall → List ℕ
answer (transceive tx n m ∷ l) = replicate (m - 4) 0 ++ 32 ∷ 0 ∷ 0 ∷ 0 ∷ []
answer _ = []

abbrev pub chip : BusPlatform
chip = record {
  einval = pos 22;
  eio = pos 5;
  fail_fast_check = λ e. e;
  bus_function = 0;
  backplane_function = 1;
  wlan_function = 2;
  status_register = 8;
  f2_rx_ready = 32;
  read_pad = 16;
  max_block_size = 64;
  ret = λ l. pos 0;
  received = answer;
  stack = λ l. replicate 20 0;
}

abbrev pub start : Bus
start = record {
  bus_data = false;
  last_size = 0;
  last_header = (0, 0);
  cur_backplane_window = 0;
  last_backplane_window = 0;
  frame = replicate 84 0;
  log = [];
}
