-- ===== src/Bus/Word.antt =====
-- The words of the bus protocol: `make_cmd`, the byte swap, the alignment, and words in memory.
pub mod Fields
use zephyr_cyw43_driver.Prelude.{ℕ, ◌+◌, ◌*◌, ◌/◌, ◌%◌, ◌^◌, bit_and, bit_or, Bool, true, false}
use zephyr_cyw43_driver.Prelude.{List, [], ◌∷◌, drop, get_or}

-- A bool in an expression.
abbrev pub as_int : Bool → ℕ
as_int true = 1
as_int false = 0

unfoldable pub make_cmd : Bool → Bool → ℕ → ℕ → ℕ → ℕ
make_cmd write inc fn addr sz =
    bit_or
      (bit_or (bit_or (bit_or (as_int write * 2 ^ 31) (as_int inc * 2 ^ 30)) (fn * 2 ^ 28 % 2 ^ 32))
        (bit_and addr 0x1_ffff * 2 ^ 11))
      sz

-- The instruction `rev16`: the two bytes of each half-word change places.
unfoldable pub swap16x2 : ℕ → ℕ
swap16x2 a =
    a / 2 ^ 16 % 2 ^ 8 * 2 ^ 24
    + a / 2 ^ 24 % 2 ^ 8 * 2 ^ 16
    + a % 2 ^ 8 * 2 ^ 8
    + a / 2 ^ 8 % 2 ^ 8

-- `(len + 3) & ~3`
unfoldable pub align4 : ℕ → ℕ
align4 len = bit_and ((len + 3) % 2 ^ 32) 0xffff_fffc

-- A word as it stands in memory, and a word read from memory: the lowest byte first.
abbrev pub word_bytes : ℕ → List ℕ
word_bytes w = w % 2 ^ 8 ∷ w / 2 ^ 8 % 2 ^ 8 ∷ w / 2 ^ 16 % 2 ^ 8 ∷ w / 2 ^ 24 % 2 ^ 8 ∷ []

abbrev pub word_of : List ℕ → ℕ
word_of bytes =
    get_or bytes 0 0
    + get_or bytes 1 0 * 2 ^ 8
    + get_or bytes 2 0 * 2 ^ 16
    + get_or bytes 3 0 * 2 ^ 24
