-- ===== src/Picowi/Tests.antt =====
-- Runs over the PicoWi library with one concrete chip, which answers a fixed word.
use zephyr_cyw43_driver.Prelude.{
  ℕ, ◌/◌, ◌≡◌, arith, refl, Bool, true, false, List, [], ◌∷◌, Option, some, take, drop, replicate,
}
use zephyr_cyw43_driver.Prelude.Int.{pos}
use zephyr_cyw43_driver.Prelude.Fault.{Returns}
use zephyr_cyw43_driver.Bus.Platform.{BusPlatform, BusCall, transceive}
use zephyr_cyw43_driver.Bus.Transfer.{Bus}
use zephyr_cyw43_driver.Bus.Word.{word_of, align4}
use zephyr_cyw43_driver.Bus.Block
use zephyr_cyw43_driver.Picowi.Platform.{PicowiPlatform, PicowiCall, pio_spi_read}
use zephyr_cyw43_driver.Picowi.Transfer.{PicowiBus}
use zephyr_cyw43_driver.Picowi.Transfer.Pairs.{pairs_read, word_read}
use zephyr_cyw43_driver.Picowi.Register.{read_reg}
use zephyr_cyw43_driver.Picowi.Register.Access.{released, sent, read_reg-pairs}
use zephyr_cyw43_driver.Picowi.Block.{check_length, read_bytes, write_bytes}
use zephyr_cyw43_driver.Picowi.Block.Payload.{block_read, read_bytes-payload}
use zephyr_cyw43_driver.Picowi.Alike.{Agree, Alike, SameChip}
use zephyr_cyw43_driver.Picowi.Alike.Blocks.{write_bytes-Alike}

-- What the chip answers: as many bytes as are asked for, the status that the FIFO is ready.
abbrev answer : ℕ → List ℕ
answer n = take n (32 ∷ replicate n 0)

abbrev spi_answer : List BusCall → List ℕ
spi_answer (transceive tx n m ∷ l) = answer m
spi_answer _ = []

abbrev picowi_answer : List PicowiCall → List ℕ
picowi_answer (pio_spi_read n ∷ l) = answer (n / 8)
picowi_answer _ = []

abbrev constants : BusPlatform
constants = record {
  einval = pos 22;
  eio = pos 5;
  fail_fast_check = λ e. e;
  bus_function = 0;
  backplane_function = 1;
  wlan_function = 2;
  status_register = 8;
  f2_rx_ready = 32;
  read_pad = 16;
  max_block_size = 64;
  ret = λ l. pos 0;
  received = spi_answer;
  stack = λ l. replicate 20 0;
}

abbrev library : PicowiPlatform
library = record {
  constants = constants;
  answer = picowi_answer;
  uninitialised = λ l. replicate 20 0;
}

library-SameChip : SameChip library
library-SameChip = record {
  succeeds = λ l. refl;
  aligned = refl;
  padded = omega arith;
  stack = λ l. refl;
  uninitialised = λ l. refl;
  spi_word = λ tx l. refl;
  word = λ l. refl;
  pair = λ l. refl;
  same_word = λ tx l k e. (refl, refl);
}

-- The state at the start, in either mode.
abbrev fresh : Bool → PicowiBus
fresh reordering = record {
  bus_data = false;
  byte_reordering = reordering;
  last_size = 0;
  last_header = (0, 0);
  cur_backplane_window = 0;
  last_backplane_window = 0;
  frame = replicate 84 0;
  log = [];
}

abbrev fresh_spi : Bus
fresh_spi = record {
  bus_data = false;
  last_size = 0;
  last_header = (0, 0);
  cur_backplane_window = 0;
  last_backplane_window = 0;
  frame = replicate 84 0;
  log = [];
}

fresh-Agree : (b : Bool) → Agree fresh_spi (fresh b)
fresh-Agree b = record {
  sizes = refl;
  headers = refl;
  current = refl;
  last = refl;
  frames = refl;
  bytes = refl;
}

read_reg-pairs_example :
    read_reg library 1 20 4 (fresh true)
    ≡ some (
      word_of (picowi_answer (word_read (pairs_read 2 (sent library (fresh true) 1 20 4)))),
      (let t : PicowiBus = fresh true in
          record t { log = released (pairs_read 3 (sent library (fresh true) 1 20 4)) }),
    )
read_reg-pairs_example =
    read_reg-pairs library (fresh true) 1 20 4 2 refl refl refl refl (λ l. refl)

checked_length : (t : PicowiBus) → check_length library 1 8 t ≡ some (align4 8, t)
unfolding check_length align4
checked_length t = refl

read_bytes-payload_example :
    let answer = picowi_answer (block_read library (fresh true) 1 20 8) in
    Returns
      (λ r t.
        (r ≡ (pos 0, take 8 (drop 16 answer)))
        × (t.byte_reordering ≡ false)
        × (t.log ≡ released (block_read library (fresh true) 1 20 8)))
      (read_bytes library 1 20 8 (fresh true))
unfolding align4
read_bytes-payload_example =
    read_bytes-payload library (fresh true) 1 20 8 refl checked_length (omega arith) (omega arith)
      refl

write_bytes-Alike_example :
    let src : Option (List ℕ) = some (1 ∷ 2 ∷ 3 ∷ []) in
    Alike
      (Block.write_bytes constants 2 0 3 src fresh_spi)
      (write_bytes library 2 0 3 src (fresh true))
write_bytes-Alike_example =
    write_bytes-Alike library library-SameChip 2 0 3 (some (1 ∷ 2 ∷ 3 ∷ [])) fresh_spi (fresh true)
      refl (fresh-Agree true)
