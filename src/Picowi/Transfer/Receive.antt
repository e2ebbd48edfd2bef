-- ===== src/Picowi/Transfer/Receive.antt =====
-- What the read half of `cyw43_spi_transfer` leaves in the buffer, in its two modes.
use zephyr_cyw43_driver.Prelude.{
  ℕ, suc, ◌+◌, ◌*◌, ◌≤◌, ◌<◌, ◌≡◌, arith, refl, sym, Bool, Option, ap, ◌∙◌, ltb, true, false, List,
  [], ◌∷◌, ◌++◌, some, none, drop, length, replicate, length-replicate, drop-append_add,
}
use zephyr_cyw43_driver.Prelude.Fault.{◌>>=◌}
use mathlib.Core.Path.{subst}
use native.Mathlib.Decide.{dec_lt}
use zephyr_cyw43_driver.Bus.Transfer.{write_bytes_at}
use zephyr_cyw43_driver.Bus.Block.Splice.{splice, write_bytes_at-splice, length-splice}
use zephyr_cyw43_driver.Picowi.Platform.{PicowiPlatform, PicowiCall, pio_spi_read}
use zephyr_cyw43_driver.Picowi.Transfer.{PicowiBus, store_answer, receive}
use zephyr_cyw43_driver.Picowi.Transfer.Pairs.{pairs, pairs_read, GivesWords, read_pairs_lem}

abbrev zeros : ℕ → List ℕ
zeros m = replicate m 0

length-zeros : (m : ℕ) → length (zeros m) ≡ m
length-zeros m = length-replicate m 0

-- The buffer behind `memset`.
abbrev pub cleared : List ℕ → ℕ → List ℕ
cleared rx m = splice rx 0 (zeros m)

pub length-cleared : (rx : List ℕ) (m : ℕ) → m ≤ length rx → length (cleared rx m) ≡ length rx
length-cleared rx m h = length-splice rx 0 (zeros m) (omega (arith, length-zeros m))

drop-cleared : (rx : List ℕ) (m : ℕ) → drop m (cleared rx m) ≡ drop m rx
drop-cleared rx m =
    let e : m + 0 ≡ m = omega arith in
    let z : 0 + length (zeros m) ≡ m = omega (arith, length-zeros m) in
    ap (λ n. drop n (cleared rx m)) (omega arith)
    ∙ drop-append_add m 0 (zeros m) (drop (0 + length (zeros m)) rx) (length-zeros m)
    ∙ ap (λ n. drop n rx) z

clear_lem :
    (rx : List ℕ) (m : ℕ) → m ≤ length rx → write_bytes_at rx 0 (zeros m) ≡ some (cleared rx m)
clear_lem rx m h = write_bytes_at-splice rx 0 (zeros m) (omega (arith, length-zeros m))

module _ (p : PicowiPlatform) (s : PicowiBus) where
  -- The log behind an answer that is stored in one piece.
  abbrev pub whole_read : ℕ → List PicowiCall
  whole_read m = pio_spi_read (m * 8) ∷ s.log

  store_answer-pairs :
      (xs : List ℕ) (k m : ℕ)
      → GivesWords p
      → m ≡ 8 * k
      → m ≤ length xs
      → store_answer p true xs m s
        ≡ some (pairs p k s.log ++ drop (8 * k) xs, record s { log = pairs_read k s.log })
  unfolding store_answer
  store_answer-pairs xs k m gives e fits =
      let done : ltb m m ≡ false = ground arith in
      rw
        (
          ◌>>=◌,
          read_pairs_lem p (suc m) k 0 m [] xs s gives refl (omega arith) (omega arith)
              (omega arith),
          done,
        )
        refl

  store_answer-whole :
      (xs : List ℕ) (m : ℕ)
      → length (p.answer (whole_read m)) ≡ m
      → m + 4 ≤ length xs
      → store_answer p false xs m s
        ≡ some (splice xs 4 (p.answer (whole_read m)), record s { log = whole_read m })
  unfolding store_answer
  store_answer-whole xs m gives fits =
      rw (write_bytes_at-splice xs 4 (p.answer (whole_read m)) (omega (arith, gives))) refl

  store_answer-overrun :
      (xs : List ℕ) (m : ℕ)
      → length (p.answer (whole_read m)) ≡ m
      → length xs < m + 4
      → store_answer p false xs m s ≡ none
  unfolding store_answer
  store_answer-overrun xs m gives short = ground arith

  module _ (rx : List ℕ) (m : ℕ) where
    -- Behind `memset` the mode decides.
    receive-mode :
        (b : Bool) {r : Option (List ℕ × PicowiBus)}
        → s.byte_reordering ≡ b
        → m ≤ length rx
        → store_answer p b (cleared rx m) m s ≡ r
        → receive p rx m s ≡ r
    unfolding receive
    receive-mode b {r} mode fits e =
        rw (clear_lem rx m fits) (subst (λ x. store_answer p x (cleared rx m) m s ≡ r) (sym mode) e)

    -- With reordering, a whole number of pairs of words fills the buffer exactly.
    pub receive-pairs :
        (k : ℕ)
        → s.byte_reordering ≡ true
        → GivesWords p
        → m ≡ 8 * k
        → m ≤ length rx
        → receive p rx m s
          ≡ some (pairs p k s.log ++ drop m rx, record s { log = pairs_read k s.log })
    receive-pairs k on gives e fits =
        let t : PicowiBus = record s { log = pairs_read k s.log } in
        let same : drop (8 * k) (cleared rx m) ≡ drop m rx =
          ap (λ n. drop n (cleared rx m)) (omega arith) ∙ drop-cleared rx m in
        receive-mode true on fits (
          store_answer-pairs (cleared rx m) k m gives e (omega (arith, length-cleared rx m fits))
          ∙ ap (λ x. some (pairs p k s.log ++ x, t)) same)

    -- Without it, the answer stands 4 bytes further on: the word in front is cleared.
    pub receive-whole :
        s.byte_reordering ≡ false
        → length (p.answer (whole_read m)) ≡ m
        → m + 4 ≤ length rx
        → receive p rx m s
          ≡ some
              (splice (cleared rx m) 4 (p.answer (whole_read m)), record s { log = whole_read m })
    receive-whole off gives fits =
        let inside : m ≤ length rx = omega arith in
        receive-mode false off inside
          (store_answer-whole (cleared rx m) m gives (omega (arith, length-cleared rx m inside)))

    -- So an answer with fewer than 4 bytes of the object behind it runs past the object's end.
    pub receive-overrun :
        s.byte_reordering ≡ false
        → length (p.answer (whole_read m)) ≡ m
        → length rx < m + 4
        → receive p rx m s ≡ none
    unfolding receive
    receive-overrun off gives short = elim (dec_lt (length rx) m) [
      | no fits ↦
          let inside : m ≤ length rx = omega arith in
          receive-mode false off inside (
            store_answer-overrun (cleared rx m) m gives (omega (arith, length-cleared rx m inside)))
      | yes tight ↦
          let refused : write_bytes_at rx 0 (zeros m) ≡ none = ground (arith, length-zeros m) in
          rw (refused) refl
    ]
