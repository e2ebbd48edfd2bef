-- ===== src/Bus/Tests/Memory.antt =====
-- A chip that keeps the words written to it, and a register written and read back.
use zephyr_cyw43_driver.Prelude.{
  ℕ, ◌+◌, ◌-◌, ◌/◌, ◌%◌, ◌^◌, ◌<◌, ◌≡◌, ◌⊎◌, inl, inr, arith, refl, Bool, true, false, ◌&&◌, ◌==◌,
  if◌then◌else◌, List, [], ◌∷◌, ◌++◌, none, some, drop, length, replicate,
}
use mathlib.Core.Path.{fun_ext}
use zephyr_cyw43_driver.Bus.Platform.{BusPlatform, BusCall, transceive}
use zephyr_cyw43_driver.Bus.Word.{word_bytes, word_of}
use zephyr_cyw43_driver.Bus.Word.Fields.{word_of-word_bytes}
use zephyr_cyw43_driver.Bus.Register.{padding}
use zephyr_cyw43_driver.Bus.Register.Memory.{
  Chip, fn_of, addr_of, Apart, IsMemory, read_reg-write_reg,
}
use zephyr_cyw43_driver.Bus.Tests.Chip.{chip, start}

-- Whether a command writes the word at `addr` of the function `fn`.
abbrev hits : (w fn addr : ℕ) → Bool
hits w fn addr = (w / 2 ^ 31 == 1) && (fn_of w == fn) && (addr_of w == addr)

unfoldable kept_word : List BusCall → (fn addr : ℕ) → ℕ
kept_word [] fn addr = 0
kept_word (transceive (some bytes) n m ∷ l) fn addr =
    let rest = kept_word l fn addr in
    if hits (word_of bytes) fn addr then word_of (drop 4 bytes) % 2 ^ 32 else rest
kept_word (_ ∷ l) fn addr = kept_word l fn addr

abbrev told : List BusCall → List ℕ
told (transceive (some bytes) n m ∷ l) =
    replicate (m - 4) 0
    ++ word_bytes (kept_word l (fn_of (word_of bytes)) (addr_of (word_of bytes)))
told _ = []

abbrev keeper : BusPlatform
keeper = let c : BusPlatform = chip in record c { received = told }

kept_word-lt : (l : List BusCall) (fn addr : ℕ) → kept_word l fn addr < 2 ^ 32
unfolding kept_word
kept_word-lt [] fn addr = omega arith
kept_word-lt (transceive (some bytes) n m ∷ l) fn addr = ground (arith, kept_word-lt l fn addr)
kept_word-lt (transceive none n m ∷ l) fn addr = kept_word-lt l fn addr
kept_word-lt (c ∷ l) fn addr = kept_word-lt l fn addr

misses :
    (w fn addr : ℕ) → w < 2 ^ 32 → w / 2 ^ 31 ≡ 0 → hits (word_of (word_bytes w)) fn addr ≡ false
misses w fn addr small h = rw (word_of-word_bytes w small) (ground (arith, h))

keeper-keeps :
    (l : List BusCall) (w n : ℕ)
    → w / 2 ^ 31 ≡ 0
    → kept_word (transceive (some (word_bytes w)) 4 n ∷ l) ≡ kept_word l
unfolding kept_word
keeper-keeps l w n h =
    fun_ext (λ fn. fun_ext (λ addr. rw (misses w fn addr (omega (arith, h)) h) refl))

-- The word behind the command.
behind :
    (w val : ℕ)
    → w < 2 ^ 32
    → (word_of (word_bytes w ++ word_bytes val) ≡ w)
      × (word_of (drop 4 (word_bytes w ++ word_bytes val)) ≡ word_of (word_bytes val))
behind w val small = (word_of-word_bytes w small, refl)

keeper-stores :
    (l : List BusCall) (w val : ℕ)
    → w / 2 ^ 31 ≡ 1
    → w % 2 ^ 11 ≡ 4
    → val < 2 ^ 32
    → kept_word (transceive (some (word_bytes w ++ word_bytes val)) 8 0 ∷ l) (fn_of w) (addr_of w)
      ≡ val
unfolding kept_word
keeper-stores l w val write size small =
    let (command, value) = behind w val (omega (arith, write)) in
    let hit : hits w (fn_of w) (addr_of w) ≡ true = ground (arith, write) in
    rw (command, hit, value, word_of-word_bytes val small) (omega (arith, small))

keeper-spares :
    (l : List BusCall) (w val fn addr : ℕ)
    → w / 2 ^ 31 ≡ 1
    → w % 2 ^ 11 ≡ 4
    → Apart (fn_of w) (addr_of w) fn addr
    → kept_word (transceive (some (word_bytes w ++ word_bytes val)) 8 0 ∷ l) fn addr
      ≡ kept_word l fn addr
unfolding kept_word
keeper-spares l w val fn addr write size apart =
    let (command, value) = behind w val (omega (arith, write)) in
    let miss : hits w fn addr ≡ false = ground (arith, apart) in rw (command, miss) refl

padded :
    (k x : ℕ)
    → (k ≡ 16) ⊎ (k ≡ 0)
    → x < 2 ^ 32
    → (length (replicate {A = ℕ} (4 + k - 4) 0 ++ word_bytes x) ≡ 4 + k)
      × (word_of (drop k (replicate {A = ℕ} (4 + k - 4) 0 ++ word_bytes x)) ≡ x)
padded k x (inl sixteen) small = rw sixteen (refl, word_of-word_bytes x small)
padded k x (inr zero) small = rw zero (refl, word_of-word_bytes x small)

keeper-answers :
    (l : List BusCall) (w : ℕ)
    → w / 2 ^ 31 ≡ 0
    → w % 2 ^ 11 ≡ 4 + padding keeper (fn_of w)
    → let answer : List ℕ =
        told (transceive (some (word_bytes w)) 4 (4 + padding keeper (fn_of w)) ∷ l) in
      (length answer ≡ 4 + padding keeper (fn_of w))
      × (word_of (drop (padding keeper (fn_of w)) answer) ≡ kept_word l (fn_of w) (addr_of w))
keeper-answers l w read size = rw (word_of-word_bytes w (omega (arith, read))) (
    padded (padding keeper (fn_of w)) (kept_word l (fn_of w) (addr_of w)) (ground arith)
      (kept_word-lt l (fn_of w) (addr_of w)))

memory : Chip keeper
unfolding kept_word
memory = record {
  word = kept_word;
  succeeds = λ l. refl;
  pins = λ l x. refl;
  interrupts = λ l x. refl;
  stores = keeper-stores;
  spares = keeper-spares;
  answers = keeper-answers;
  keeps = keeper-keeps;
}

read_reg-write_reg_example : IsMemory keeper memory 1 20 0x12345678 0 8 start
read_reg-write_reg_example =
    read_reg-write_reg keeper memory 1 20 0x12345678 0 8 start (omega arith) (omega arith)
      (omega arith) (omega arith) (omega arith) (inl (omega arith)) refl (omega arith) (λ l. refl)
