-- ===== src/Picowi/Register/Access.antt =====
-- What an access of a register returns, with and without the reordering.
use zephyr_cyw43_driver.Prelude.{
  ℕ, suc, ◌+◌, ◌*◌, ◌%◌, ◌≤◌, ◌≡◌, arith, refl, sym, ap, ◌∙◌, true, false, List, ◌∷◌, ◌++◌, some,
  none, take, drop, length, ◌==◌,
}
use mathlib.Core.Path.{subst}
use zephyr_cyw43_driver.Prelude.Int.{pos}
use zephyr_cyw43_driver.Prelude.Fault.{◌>>=◌}
use zephyr_cyw43_driver.Bus.Word.{make_cmd, word_bytes, word_of}
use zephyr_cyw43_driver.Bus.Register.{padding, index}
use zephyr_cyw43_driver.Bus.Register.Access.{word_of-append, index_lem}
use zephyr_cyw43_driver.Bus.Block.Splice.{splice, drop-splice}
use zephyr_cyw43_driver.Picowi.Platform.{
  PicowiPlatform, PicowiCall, pio_spi_write, pio_spi_read, io_level, wl_cs, sd_cs,
}
use zephyr_cyw43_driver.Picowi.Transfer.{PicowiBus, receive, spi_transfer}
use zephyr_cyw43_driver.Picowi.Transfer.Pairs.{
  pairs, pairs_read, word_read, GivesWords, word_of-pairs,
}
use zephyr_cyw43_driver.Picowi.Transfer.Receive.{
  receive-pairs, receive-whole, cleared, length-cleared,
}
use zephyr_cyw43_driver.Picowi.Register.{read_reg}

-- The log behind a command of one word.
abbrev pub commanded : ℕ → List PicowiCall → List PicowiCall
commanded cmd l = pio_spi_write (word_bytes cmd) 32 ∷ io_level wl_cs 0 ∷ l

abbrev pub released : List PicowiCall → List PicowiCall
released l = io_level sd_cs 1 ∷ l

-- A transfer that only sends.
pub spi_transfer-send :
    (p : PicowiPlatform) (s : PicowiBus) (tx : List ℕ) (n : ℕ)
    → n ≤ length tx
    → spi_transfer p (some tx) n none 0 s
      ≡ some (
        (pos 0, none),
        record s { log = released (pio_spi_write (take n tx) (n * 8) ∷ io_level wl_cs 0 ∷ s.log) },
      )
unfolding spi_transfer
spi_transfer-send p s tx n h = ground arith

module _ (p : PicowiPlatform) (s : PicowiBus) (cmd m : ℕ) (rest : List ℕ) where
  abbrev rx : List ℕ
  rx = word_bytes cmd ++ rest

  abbrev pub at_answer : PicowiBus
  at_answer = record s { log = commanded cmd s.log }

  pub spi_transfer-receive :
      {rx' : List ℕ} {l : List PicowiCall}
      → 5 ≤ m
      → receive p rx m at_answer ≡ some (rx', record s { log = l })
      → spi_transfer p none 4 (some rx) m s
        ≡ some ((pos 0, some rx'), record s { log = released l })
  unfolding spi_transfer
  spi_transfer-receive long e = ground (arith, e)

module _ (p : PicowiPlatform) (s : PicowiBus) (fn reg size : ℕ) where
  abbrev command : ℕ
  command = make_cmd false true fn reg size

  abbrev pub sent : List PicowiCall
  sent = commanded command s.log

  abbrev m : ℕ
  m = 8 + padding p.constants fn

  abbrev whole : List ℕ
  whole = word_bytes command ++ p.uninitialised s.log

  read_reg-receive :
      {rx' : List ℕ} {l : List PicowiCall}
      → receive p whole m (at_answer p s command m (p.uninitialised s.log))
        ≡ some (rx', record s { log = l })
      → read_reg p fn reg size s
        ≡ some (word_of (drop (4 * index p.constants fn) rx'), record s { log = released l })
  unfolding read_reg
  read_reg-receive stored =
      rw (◌>>=◌, spi_transfer-receive p s command m (p.uninitialised s.log) (omega arith) stored)
        refl

  -- With the byte reordering, where the padding is `j` pairs of words and every read of a word
  -- stores four bytes, a read of a register always returns, stays inside its buffer on the stack,
  -- and returns the word that the chip sent behind the padding, whichever way the words were
  -- stored; one more word is read behind it.
  pub read_reg-pairs :
      (j : ℕ)
      → s.byte_reordering ≡ true
      → p.constants.read_pad % 4 ≡ 0
      → padding p.constants fn ≡ 8 * j
      → length (p.uninitialised s.log) ≡ p.constants.read_pad + 4
      → GivesWords p
      → read_reg p fn reg size s
        ≡ some (
          word_of (p.answer (word_read (pairs_read j sent))),
          record s { log = released (pairs_read (suc j) sent) },
        )
  read_reg-pairs j on aligned pad stack gives =
      let t : PicowiBus = at_answer p s command m (p.uninitialised s.log) in
      let place : 4 * index p.constants fn ≡ 8 * j + 4 =
        omega (arith, index_lem p.constants fn aligned) in
      let fits : m ≤ length whole = ground arith in
      let sum : m ≡ 8 * suc j = omega arith in
      read_reg-receive (receive-pairs p t whole m (suc j) on gives sum fits)
      ∙ ap (λ w. some (w, record s { log = released (pairs_read (suc j) sent) }))
          (ap (λ n. word_of (drop n (pairs p (suc j) sent ++ drop m whole))) place
            ∙ word_of-pairs p j (suc j) sent (drop m whole) gives (omega arith))

  -- Without it, where every read of 8 bytes stores them, the padding is at least one word and the
  -- register is not one of the backplane, a read always returns, inside its buffer, the first of
  -- the two words that the chip sends.
  pub read_reg-whole :
      s.byte_reordering ≡ false
      → (fn == p.constants.backplane_function) ≡ false
      → p.constants.read_pad % 4 ≡ 0
      → 4 ≤ p.constants.read_pad
      → length (p.uninitialised s.log) ≡ p.constants.read_pad + 4
      → length (p.answer (pio_spi_read 64 ∷ sent)) ≡ 8
      → read_reg p fn reg size s
        ≡ some (
          word_of (p.answer (pio_spi_read 64 ∷ sent)),
          record s { log = released (pio_spi_read 64 ∷ sent) },
        )
  read_reg-whole off other aligned padded stack gives =
      let t : PicowiBus = at_answer p s command m (p.uninitialised s.log) in
      let none_padded : padding p.constants fn ≡ 0 = ground arith in
      let eight : m ≡ 8 = omega arith in
      let answer : List ℕ = p.answer (pio_spi_read 64 ∷ sent) in
      let fits : 12 ≤ length whole = ground arith in
      let place : 4 * index p.constants fn ≡ 4 + 0 =
        omega (arith, index_lem p.constants fn aligned) in
      let stored = receive-whole p t whole 8 off gives fits in
      read_reg-receive (
        subst
          (λ n.
            receive p whole n t
            ≡ some (splice (cleared whole 8) 4 answer, record s { log = pio_spi_read 64 ∷ sent }))
          (sym eight) stored)
      ∙ ap (λ w. some (w, record s { log = released (pio_spi_read 64 ∷ sent) }))
          (ap (λ n. word_of (drop n (splice (cleared whole 8) 4 answer))) place
            ∙ ap word_of (
                drop-splice (cleared whole 8) 4 0 answer (omega (arith, length-cleared whole 8))
                  (omega arith))
            ∙ word_of-append answer _ (omega arith))
