-- ===== src/Bus/Tests/Blocks.antt =====
-- A chip that keeps the blocks written to it, and a block written and read back.
use zephyr_cyw43_driver.Prelude.{
  ℕ, zero, suc, ◌+◌, ◌-◌, ◌/◌, ◌^◌, ◌≤◌, ◌≡◌, arith, refl, sym, ap, ◌∙◌, Bool, true, ◌&&◌, ◌==◌,
  if◌then◌else◌, List, [], ◌∷◌, ◌++◌, none, some, take, drop, length, replicate, length-take,
  length-append, length-replicate, take-append, take-append_of_le, drop-append,
}
use zephyr_cyw43_driver.Prelude.Int.{pos}
use zephyr_cyw43_driver.Prelude.Fault.{Returns}
use zephyr_cyw43_driver.Bus.Platform.{BusPlatform, BusCall, transceive}
use zephyr_cyw43_driver.Bus.Word.{align4, word_bytes, word_of}
use zephyr_cyw43_driver.Bus.Word.Fields.{word_of-word_bytes}
use zephyr_cyw43_driver.Bus.Transfer.{Bus}
use zephyr_cyw43_driver.Bus.Register.{padding}
use zephyr_cyw43_driver.Bus.Register.Memory.{fn_of, addr_of}
use zephyr_cyw43_driver.Bus.Block.{read_bytes, write_bytes}
use zephyr_cyw43_driver.Bus.Block.Memory.{BlockChip, size_of, read_bytes-write_bytes}
use zephyr_cyw43_driver.Bus.Tests.Chip.{chip, start}

-- Whether a command writes the block of the size `size` at `addr` of the function `fn`.
abbrev hits : (w fn addr size : ℕ) → Bool
hits w fn addr size =
    (w / 2 ^ 31 == 1) && (fn_of w == fn) && (addr_of w == addr) && (size_of w == size)

unfoldable kept_block : List BusCall → (fn addr size : ℕ) → List ℕ
kept_block [] fn addr size = replicate size 0
kept_block (transceive (some bytes) n m ∷ l) fn addr size =
    let rest = kept_block l fn addr size in
    if hits (word_of bytes) fn addr size then take size (drop 4 bytes ++ replicate size 0) else rest
kept_block (_ ∷ l) fn addr size = kept_block l fn addr size

abbrev told : List BusCall → List ℕ
told (transceive (some bytes) m n ∷ l) =
    let w : ℕ = word_of bytes in
    let pad : ℕ = padding chip (fn_of w) in
    replicate pad 0
    ++ (kept_block l (fn_of w) (addr_of w) (size_of w) ++ replicate (n - (pad + size_of w)) 0)
told _ = []

abbrev block_keeper : BusPlatform
block_keeper = let c : BusPlatform = chip in record c { received = told }

length-kept_block :
    (l : List BusCall) (fn addr size : ℕ) → length (kept_block l fn addr size) ≡ size
unfolding kept_block
length-kept_block [] fn addr size = length-replicate size 0
length-kept_block (transceive (some bytes) n m ∷ l) fn addr size = ground (
  arith,
  length-kept_block l fn addr size,
  length-take size (drop 4 bytes ++ replicate size 0),
  length-append (drop 4 bytes) (replicate size 0),
  length-replicate {A = ℕ} size 0,
)
length-kept_block (transceive none n m ∷ l) fn addr size = length-kept_block l fn addr size
length-kept_block (c ∷ l) fn addr size = length-kept_block l fn addr size

take-take : (z n : ℕ) (xs : List ℕ) → z ≤ n → n ≤ length xs → take z (take n xs) ≡ take z xs
take-take zero n xs h k = refl
take-take (suc z) zero xs h k = absurd (omega arith)
take-take (suc z) (suc n) [] h k = refl
take-take (suc z) (suc n) (x ∷ xs) h k =
    ap (λ (t : List ℕ). x ∷ t) (take-take z n xs (omega arith) (omega arith))

-- The bytes of a write, behind its command.
split :
    (w n : ℕ) (bytes : List ℕ) → take (n + 4) (word_bytes w ++ bytes) ≡ word_bytes w ++ take n bytes
split w n bytes =
    let four : n + 4 ≡ suc (suc (suc (suc n))) = omega arith in
    ap (λ k. take k (word_bytes w ++ bytes)) four

stored_block :
    (l : List BusCall) (w n : ℕ) (bytes : List ℕ)
    → w / 2 ^ 31 ≡ 1
    → size_of w ≤ n
    → n ≤ length bytes
    → kept_block
        (transceive (some (take (n + 4) (word_bytes w ++ bytes))) (n + 4) 0 ∷ l)
        (fn_of w)
        (addr_of w)
        (size_of w)
      ≡ take (size_of w) bytes
unfolding kept_block
stored_block l w n bytes write small whole =
    let hit : hits w (fn_of w) (addr_of w) (size_of w) ≡ true = ground (arith, write) in
    let word : word_of (word_bytes w ++ take n bytes) ≡ w =
      word_of-word_bytes w (omega (arith, write)) in
    rw (split w n bytes, word, hit)
      (take-append_of_le (size_of w) (take n bytes) (replicate (size_of w) 0)
          (omega (arith, length-take n bytes, small, whole))
        ∙ take-take (size_of w) n bytes small whole)

answered_block :
    (l : List BusCall) (w n : ℕ)
    → w / 2 ^ 31 ≡ 0
    → padding block_keeper (fn_of w) + size_of w ≤ n
    → let answer : List ℕ = told (transceive (some (word_bytes w)) 4 n ∷ l) in
      (length answer ≡ n)
      × (take (size_of w) (drop (padding block_keeper (fn_of w)) answer)
          ≡ kept_block l (fn_of w) (addr_of w) (size_of w))
answered_block l w n read small =
    let pad : ℕ = padding chip (fn_of w) in
    let held : List ℕ = kept_block l (fn_of w) (addr_of w) (size_of w) in
    let rest : List ℕ = replicate (n - (pad + size_of w)) 0 in
    let measured : length held ≡ size_of w =
      length-kept_block l (fn_of w) (addr_of w) (size_of w) in
    rw (word_of-word_bytes w (omega (arith, read))) (
      omega (
        arith,
        measured,
        small,
        length-append (replicate pad 0) (held ++ rest),
        length-append held rest,
        length-replicate {A = ℕ} pad 0,
        length-replicate {A = ℕ} (n - (pad + size_of w)) 0,
      ),
      ap (take (size_of w)) (
            ap (λ k. drop k (replicate pad 0 ++ (held ++ rest)))
              (sym (length-replicate {A = ℕ} pad 0))
            ∙ drop-append (replicate pad 0) (held ++ rest))
          ∙ (ap (λ k. take k (held ++ rest)) (sym measured) ∙ take-append held rest),
    )

block_memory : BlockChip block_keeper
unfolding kept_block
block_memory = record {
  block = kept_block;
  succeeds = λ l. refl;
  pins = λ l x. refl;
  interrupts = λ l x. refl;
  stores = stored_block;
  answers = answered_block;
}

read_bytes-write_bytes_example :
    (t : Bus) × (write_bytes block_keeper 1 0x8000 3 (some (1 ∷ 2 ∷ 3 ∷ [])) start
      ≡ some (pos 0, t))
    × Returns (λ r u. r ≡ (pos 0, take 3 (1 ∷ 2 ∷ 3 ∷ []))) (read_bytes block_keeper 1 0x8000 3 t)
unfolding align4
read_bytes-write_bytes_example =
    read_bytes-write_bytes block_keeper block_memory 1 0x8000 3 (1 ∷ 2 ∷ 3 ∷ []) start (omega arith)
      (omega arith) refl refl (omega arith) (omega arith) (omega arith) (omega arith) (omega arith)
