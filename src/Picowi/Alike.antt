-- ===== src/Picowi/Alike.antt =====
-- The two backends side by side: what it means that they do the same, and that they access
-- registers alike.
pub mod Registers
pub mod Blocks
use zephyr_cyw43_driver.Prelude.{ℕ, ◌+◌, ◌%◌, ◌≤◌, ◌≡◌, List, [], ◌∷◌, Option, none, some, length}
use zephyr_cyw43_driver.Prelude.Int.{ℤ, pos}
use zephyr_cyw43_driver.Bus.Platform.{BusCall, transceive}
use zephyr_cyw43_driver.Bus.Word.{word_of}
use zephyr_cyw43_driver.Bus.Transfer.{Bus}
use zephyr_cyw43_driver.Picowi.Platform.{PicowiPlatform, PicowiCall, pio_spi_write, pio_spi_read}
use zephyr_cyw43_driver.Picowi.Transfer.{PicowiBus}
use zephyr_cyw43_driver.Picowi.Transfer.Pairs.{GivesWords, word_read}

-- The bytes that Zephyr's SPI driver sent, transfer by transfer, the last one first.
abbrev pub spi_sent : List BusCall → List (List ℕ)
spi_sent [] = []
spi_sent (transceive (some bytes) n m ∷ l) = bytes ∷ spi_sent l
spi_sent (_ ∷ l) = spi_sent l

-- The bytes that the PicoWi library sent.
abbrev pub picowi_sent : List PicowiCall → List (List ℕ)
picowi_sent [] = []
picowi_sent (pio_spi_write bytes bits ∷ l) = bytes ∷ picowi_sent l
picowi_sent (_ ∷ l) = picowi_sent l

-- Both sent the same bytes, and keep the same notes and the same frame.
pub record Agree (s : Bus) (t : PicowiBus) : Type 0 where
  pub sizes : s.last_size ≡ t.last_size
  pub headers : s.last_header ≡ t.last_header
  pub current : s.cur_backplane_window ≡ t.cur_backplane_window
  pub last : s.last_backplane_window ≡ t.last_backplane_window
  pub frames : s.frame ≡ t.frame
  pub bytes : spi_sent s.log ≡ picowi_sent t.log

-- Both fault, or both return the same value in states that agree.
abbrev pub Alike : {A : Type 0} → Option (A × Bus) → Option (A × PicowiBus) → Type 0
Alike none none = Unit
Alike none (some r) = ⊥
Alike (some r) none = ⊥
Alike (some (a, s)) (some (b, t)) = (a ≡ b) × Agree s t

-- The same chip behind both: Zephyr's driver reports no failure, every driver stores as many bytes
-- as it is asked for, the padding is a multiple of 4 and not 0, the buffers on the stack have the
-- length that the source gives them, and where the same bytes were sent the first word that comes
-- back is the same.
pub record SameChip (q : PicowiPlatform) : Type 0 where
  pub succeeds : (l : List BusCall) → q.constants.ret l ≡ pos 0
  pub aligned : q.constants.read_pad % 4 ≡ 0
  pub padded : 4 ≤ q.constants.read_pad
  pub stack : (l : List BusCall) → length (q.constants.stack l) ≡ q.constants.read_pad + 4
  pub uninitialised : (l : List PicowiCall) → length (q.uninitialised l) ≡ q.constants.read_pad + 4
  pub spi_word :
      (tx : Option (List ℕ)) (l : List BusCall)
      → length (q.constants.received (transceive tx 4 4 ∷ l)) ≡ 4
  pub word : GivesWords q
  pub pair : (l : List PicowiCall) → length (q.answer (pio_spi_read 64 ∷ l)) ≡ 8
  pub same_word :
      (tx : Option (List ℕ)) (l : List BusCall) (k : List PicowiCall)
      → spi_sent (transceive tx 4 4 ∷ l) ≡ picowi_sent k
      → (word_of (q.constants.received (transceive tx 4 4 ∷ l)) ≡ word_of (q.answer (word_read k)))
        × (word_of (q.constants.received (transceive tx 4 4 ∷ l))
            ≡ word_of (q.answer (pio_spi_read 64 ∷ k)))
