-- ===== src/Bus/Word/Fields.antt =====
-- The layout of a command word, and the laws of the swap and of the alignment.
use zephyr_cyw43_driver.Prelude.{
  ℕ, ◌+◌, ◌*◌, ◌/◌, ◌%◌, ◌^◌, ◌<◌, ◌≤◌, ◌≡◌, arith, Bool, true, false,
}
use zephyr_cyw43_driver.Prelude.Bits.{or_field, and_low, and_high}
use zephyr_cyw43_driver.Bus.Word.{as_int, make_cmd, swap16x2, align4, word_bytes, word_of}

as_int-lt : (b : Bool) → as_int b < 2
as_int-lt true = omega arith
as_int-lt false = omega arith

-- The command is the sum of its fields.
make_cmd_sum :
    (write inc : Bool) (fn addr sz : ℕ)
    → fn < 4
    → sz < 2 ^ 11
    → make_cmd write inc fn addr sz
      ≡ as_int write * 2 ^ 31 + as_int inc * 2 ^ 30 + fn * 2 ^ 28 + addr % 2 ^ 17 * 2 ^ 11 + sz
unfolding make_cmd
make_cmd_sum write inc fn addr sz hf hs = ground (
  arith,
  as_int-lt write,
  as_int-lt inc,
  and_low 17 addr,
  or_field 31 (as_int write) (as_int inc * 2 ^ 30),
  or_field 30 (as_int write * 2 + as_int inc) (fn * 2 ^ 28),
  or_field 28 (as_int write * 8 + as_int inc * 4 + fn) (addr % 2 ^ 17 * 2 ^ 11),
  or_field 11 (as_int write * 2 ^ 20 + as_int inc * 2 ^ 19 + fn * 2 ^ 17 + addr % 2 ^ 17) sz,
)

-- A command for one of the bus's four functions, with a size below 2 ^ 11, is a 32-bit word from
-- which each field can be read back: the direction, the increment, the function, the address
-- modulo 2 ^ 17 and the size.
pub make_cmd_fields :
    (write inc : Bool) (fn addr sz : ℕ)
    → fn < 4
    → sz < 2 ^ 11
    → let cmd = make_cmd write inc fn addr sz in
      (cmd < 2 ^ 32)
      × (cmd / 2 ^ 31 ≡ as_int write)
      × (cmd / 2 ^ 30 % 2 ≡ as_int inc)
      × (cmd / 2 ^ 28 % 2 ^ 2 ≡ fn)
      × (cmd / 2 ^ 11 % 2 ^ 17 ≡ addr % 2 ^ 17)
      × (cmd % 2 ^ 11 ≡ sz)
make_cmd_fields write inc fn addr sz hf hs =
    omega (arith, make_cmd_sum write inc fn addr sz hf hs, as_int-lt write, as_int-lt inc)

-- The swap of a 32-bit word is its own inverse.
pub swap16x2_involutive : (a : ℕ) → a < 2 ^ 32 → swap16x2 (swap16x2 a) ≡ a
unfolding swap16x2
swap16x2_involutive a h = omega arith

-- For a length that does not wrap, the alignment gives the least multiple of 4 that is not below.
pub align4_lem :
    (len : ℕ)
    → len + 3 < 2 ^ 32
    → (align4 len % 4 ≡ 0) × (len ≤ align4 len) × (align4 len ≤ len + 3)
unfolding align4
align4_lem len h = omega (arith, and_high 2 30 ((len + 3) % 2 ^ 32) (omega arith))

-- A 32-bit word read back from memory.
pub word_of-word_bytes : (w : ℕ) → w < 2 ^ 32 → word_of (word_bytes w) ≡ w
word_of-word_bytes w h = omega arith
