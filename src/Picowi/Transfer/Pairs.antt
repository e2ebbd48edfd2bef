-- ===== src/Picowi/Transfer/Pairs.antt =====
-- The loop that stores the words of an answer in pairs, the second one first.
use zephyr_cyw43_driver.Prelude.{
  ℕ, zero, suc, ◌+◌, ◌*◌, ◌≤◌, ◌<◌, ◌≡◌, arith, refl, sym, ap, ◌∙◌, ltb, true, List, [], ◌∷◌, ◌++◌,
  some, take, drop, length, length-append, length-drop, drop-drop, drop-append_add,
}
use zephyr_cyw43_driver.Prelude.Fault.{◌>>=◌}
use mathlib.Core.List.{append_assoc}
use zephyr_cyw43_driver.Bus.Word.{word_of}
use zephyr_cyw43_driver.Bus.Register.Access.{word_of-append}
use zephyr_cyw43_driver.Bus.Block.Splice.{splice, drop-splice, write_bytes_at-splice, length-splice}
use zephyr_cyw43_driver.Picowi.Platform.{PicowiPlatform, PicowiCall, pio_spi_read}
use zephyr_cyw43_driver.Picowi.Transfer.{PicowiBus, read_into, read_pairs}

splice-append :
    (pre rest : List ℕ) (j : ℕ) (bytes : List ℕ)
    → splice (pre ++ rest) (length pre + j) bytes ≡ pre ++ splice rest j bytes
splice-append [] rest j bytes = ap (λ n. splice rest n bytes) (omega arith)
splice-append (x ∷ pre) rest j bytes =
    let e : suc (length pre) + j ≡ suc (length pre + j) = omega arith in
    let f : suc (length pre + j) + length bytes ≡ suc (length pre + j + length bytes) =
      omega arith in
    ap (λ n. splice (x ∷ (pre ++ rest)) n bytes) e
    ∙ ap (λ n. x ∷ (take (length pre + j) (pre ++ rest)) ++ (bytes ++ drop n (x ∷ (pre ++ rest)))) f
    ∙ ap (λ t. x ∷ t) (splice-append pre rest j bytes)

regroup :
    (pre b a mid rest : List ℕ)
    → (pre ++ (b ++ a)) ++ (mid ++ rest) ≡ pre ++ ((b ++ (a ++ mid)) ++ rest)
regroup pre b a mid rest = simp append_assoc refl

reassoc : (b a mid rest : List ℕ) → (b ++ (a ++ mid)) ++ rest ≡ b ++ (a ++ (mid ++ rest))
reassoc b a mid rest = simp append_assoc refl

-- The log behind one read of a word.
abbrev pub word_read : List PicowiCall → List PicowiCall
word_read l = pio_spi_read 32 ∷ l

-- The log behind `k` pairs of words.
abbrev pub pairs_read : ℕ → List PicowiCall → List PicowiCall
pairs_read zero l = l
pairs_read (suc k) l = pairs_read k (word_read (word_read l))

module _ (p : PicowiPlatform) where
  -- What `k` pairs of words leave in the buffer.
  abbrev pub pairs : ℕ → List PicowiCall → List ℕ
  pairs zero l = []
  pairs (suc k) l =
      p.answer (word_read (word_read l))
      ++ (p.answer (word_read l) ++ pairs k (word_read (word_read l)))

  -- A read of a word stores its four bytes.
  abbrev pub GivesWords : Type 0
  GivesWords = (l : List PicowiCall) → length (p.answer (word_read l)) ≡ 4

  read_into-append :
      (pre rest : List ℕ) (i j : ℕ) (s : PicowiBus)
      → GivesWords
      → i ≡ length pre + j
      → j + 4 ≤ length rest
      → read_into p (pre ++ rest) i 4 s
        ≡ some
            (pre ++ splice rest j (p.answer (word_read s.log)), record s { log = word_read s.log })
  read_into-append pre rest i j s gives e room =
      let a : List ℕ = p.answer (word_read s.log) in
      let fits : i + length a ≤ length (pre ++ rest) =
        omega (arith, e, gives s.log, length-append pre rest) in
      let same : splice (pre ++ rest) i a ≡ pre ++ splice rest j a =
        ap (λ n. splice (pre ++ rest) n a) e ∙ splice-append pre rest j a in
      rw (write_bytes_at-splice (pre ++ rest) i a fits, same) refl

  -- One round: the later word, then the earlier one in front of it.
  abbrev pair_at : List PicowiCall → List ℕ
  pair_at l = p.answer (word_read (word_read l)) ++ p.answer (word_read l)

  splice-pair :
      (rest a b : List ℕ)
      → length a ≡ 4
      → length b ≡ 4
      → 8 ≤ length rest
      → splice (splice rest 4 a) 0 b ≡ (b ++ a) ++ drop 8 rest
  splice-pair rest a b ha hb room =
      let e : 4 + length a ≡ 8 = omega arith in
      let z : 0 + length b ≡ 4 = omega arith in
      ap (λ n. b ++ drop n (splice rest 4 a)) z
      ∙ ap (λ t. b ++ t) (drop-splice rest 4 0 a (omega arith) (omega arith))
      ∙ ap (λ n. b ++ (a ++ drop n rest)) e
      ∙ sym (append_assoc b a (drop 8 rest))

  pub read_pairs_lem :
      (fuel k i m : ℕ) (pre rest : List ℕ) (s : PicowiBus)
      → GivesWords
      → i ≡ length pre
      → m ≡ i + 8 * k
      → 8 * k ≤ length rest
      → k < fuel
      → read_pairs p fuel i m (pre ++ rest) s
        ≡ some (
          (m, pre ++ (pairs k s.log ++ drop (8 * k) rest)),
          record s { log = pairs_read k s.log },
        )
  unfolding read_pairs
  read_pairs_lem zero k i m pre rest s gives e total room lt = absurd (omega arith)
  read_pairs_lem (suc fuel) zero i m pre rest s gives e total room lt = ground arith
  read_pairs_lem (suc fuel) (suc k) i m pre rest s gives e total room lt =
      let l : List PicowiCall = s.log in
      let a : List ℕ = p.answer (word_read l) in
      let b : List ℕ = p.answer (word_read (word_read l)) in
      let t : PicowiBus = record s { log = word_read l } in
      let u : PicowiBus = record s { log = word_read (word_read l) } in
      let more : ltb i m ≡ true = ground arith in
      let wide : 4 + length a ≤ length rest = omega (arith, gives l) in
      let later : read_into p (pre ++ rest) (i + 4) 4 s ≡ some (pre ++ splice rest 4 a, t) =
        read_into-append pre rest (i + 4) 4 s gives (omega arith) (omega arith) in
      let both : read_into p (pre ++ splice rest 4 a) i 4 t
          ≡ some ((pre ++ (b ++ a)) ++ drop 8 rest, u) =
        read_into-append pre (splice rest 4 a) i 0 t gives (omega arith)
          (omega (arith, length-splice rest 4 a wide))
        ∙ ap (λ x. some (x, u))
            (ap (λ x. pre ++ x) (splice-pair rest a b (gives l) (gives (word_read l)) (omega arith))
              ∙ sym (append_assoc pre (b ++ a) (drop 8 rest))) in
      let next : read_pairs p fuel (i + 8) m ((pre ++ (b ++ a)) ++ drop 8 rest) u
          ≡ some (
            (m, (pre ++ (b ++ a)) ++ (pairs k u.log ++ drop (8 * k) (drop 8 rest))),
            record s { log = pairs_read k u.log },
          ) =
        read_pairs_lem fuel k (i + 8) m (pre ++ (b ++ a)) (drop 8 rest) u gives
          (omega
            (arith, length-append pre (b ++ a), length-append b a, gives l, gives (word_read l)))
          (omega arith) (omega (arith, length-drop 8 rest)) (omega arith) in
      rw (read_pairs, more, ◌>>=◌, later, ◌>>=◌, both)
        (next
          ∙ ap (λ x. some ((m, x), record s { log = pairs_read k u.log }))
              (ap (λ x. (pre ++ (b ++ a)) ++ (pairs k u.log ++ x))
                  (drop-drop 8 (8 * k) rest ∙ ap (λ n. drop n rest) (omega arith))
                ∙ regroup pre b a (pairs k u.log) (drop (8 * suc k) rest)))

  -- The second word of the pair `j` was the first that was read for it.
  pub word_of-pairs :
      (j k : ℕ) (l : List PicowiCall) (rest : List ℕ)
      → GivesWords
      → j < k
      → word_of (drop (8 * j + 4) (pairs k l ++ rest))
        ≡ word_of (p.answer (word_read (pairs_read j l)))
  word_of-pairs j zero l rest gives lt = absurd (omega arith)
  word_of-pairs j (suc k) l rest gives lt =
      let b : List ℕ = p.answer (word_read (word_read l)) in
      let a : List ℕ = p.answer (word_read l) in
      let mid : List ℕ = pairs k (word_read (word_read l)) in
      ap (λ t. word_of (drop (8 * j + 4) t)) (reassoc b a mid rest)
      ∙ (elim j
            as (λ j.
              j < suc k
              → word_of (drop (8 * j + 4) (b ++ (a ++ (mid ++ rest))))
                ≡ word_of (p.answer (word_read (pairs_read j l)))) [
                  | zero ↦ λ h.
                      ap word_of (drop-append_add 4 0 b _ (gives (word_read l)))
                      ∙ word_of-append a (mid ++ rest) (omega (arith, gives l))
                  | suc j ↦ λ h.
                      let e : 8 * suc j + 4 ≡ 4 + (4 + (8 * j + 4)) = omega arith in
                      ap word_of (
                        ap (λ n. drop n (b ++ (a ++ (mid ++ rest)))) e
                        ∙ drop-append_add 4 (4 + (8 * j + 4)) b (a ++ (mid ++ rest))
                            (gives (word_read l))
                        ∙ drop-append_add 4 (8 * j + 4) a (mid ++ rest) (gives l))
                      ∙ word_of-pairs j k (word_read (word_read l)) rest gives (omega arith)
                ])
          lt
