-- ===== src/Prelude/Text.antt =====
-- C strings in fixed buffers: `strlen`, `strnlen`, `strcpy`, and `strncpy` with the terminator
-- that the driver writes behind it. `none` is an access outside a buffer.
use Prim.Native.Nat.{ℕ, zero, suc, ◌≤◌, ◌<◌}
use mathlib.Core.Path.{◌≡◌, refl, ap}
use mathlib.Core.Option.{Option, none, some}
use mathlib.Core.List.{List, [], ◌∷◌}
use mathlib.Core.Option
use native.Mathlib.Omega.{arith}
use zephyr_cyw43_driver.Prelude.Lists.{length, take}

-- The bytes in front of the first NUL, or all if there is none.
abbrev pub text_of : List ℕ → List ℕ
text_of [] = []
text_of (zero ∷ bytes) = []
text_of (suc c ∷ bytes) = suc c ∷ text_of bytes

unfoldable pub strlen : List ℕ → Option ℕ
strlen [] = none
strlen (zero ∷ bytes) = some 0
strlen (suc c ∷ bytes) = Option.map suc (strlen bytes)

-- `strnlen(bytes, n)`
pub strnlen : List ℕ → ℕ → Option ℕ
strnlen bytes zero = some 0
strnlen [] (suc n) = none
strnlen (zero ∷ bytes) (suc n) = some 0
strnlen (suc c ∷ bytes) (suc n) = Option.map suc (strnlen bytes n)

-- The NULs that `strncpy` writes behind a short text.
pub pad : List ℕ → ℕ → Option (List ℕ)
pad dst zero = some dst
pad [] (suc n) = none
pad (d ∷ dst) (suc n) = Option.map (λ rest. 0 ∷ rest) (pad dst n)

-- `strncpy(dst, src, n)`
pub strncpy : List ℕ → List ℕ → ℕ → Option (List ℕ)
strncpy dst src zero = some dst
strncpy [] src (suc n) = none
strncpy (d ∷ dst) [] (suc n) = none
strncpy (d ∷ dst) (zero ∷ src) (suc n) = Option.map (λ rest. 0 ∷ rest) (pad dst n)
strncpy (d ∷ dst) (suc c ∷ src) (suc n) = Option.map (λ rest. suc c ∷ rest) (strncpy dst src n)

-- `dst[i] = v`
pub store : List ℕ → ℕ → ℕ → Option (List ℕ)
store [] i v = none
store (d ∷ dst) zero v = some (v ∷ dst)
store (d ∷ dst) (suc i) v = Option.map (λ rest. d ∷ rest) (store dst i v)

-- `strncpy(dst, src, n); dst[n] = '\0';`
unfoldable pub copy_text : List ℕ → List ℕ → ℕ → Option (List ℕ)
copy_text dst src n = elim (strncpy dst src n) [ none ↦ none | some dst' ↦ store dst' n 0 ]

-- What a buffer holds after such a copy.
pub record Copied (dst src : List ℕ) (n : ℕ) (result : Option (List ℕ)) : Type 0 where
  pub out : List ℕ
  pub returns : result ≡ some out
  pub same_length : length out ≡ length dst
  pub text : text_of out ≡ text_of (take n src)
  pub measured : strlen out ≡ some (length (text_of (take n src)))

-- Both steps of such a copy: `mid` stands after the `strncpy`, `out` after the terminator.
record Steps (dst : List ℕ) (n : ℕ) (copied : Option (List ℕ)) (text : List ℕ) : Type 0 where
  mid : List ℕ
  out : List ℕ
  copies : copied ≡ some mid
  stores : store mid n 0 ≡ some out
  same_length : length out ≡ length dst
  reads : text_of out ≡ text
  measured : strlen out ≡ some (length text)

Steps-here : (d : ℕ) (dst : List ℕ) → Steps (d ∷ dst) 0 (some (d ∷ dst)) []
unfolding store strlen
Steps-here d dst = record {
  mid = d ∷ dst;
  out = 0 ∷ dst;
  copies = refl;
  stores = refl;
  same_length = refl;
  reads = refl;
  measured = refl;
}

module _ {dst : List ℕ} {n : ℕ} {copied : Option (List ℕ)} {text : List ℕ} (d : ℕ)
    (rest : Steps dst n copied text) where
  Steps-zero : Steps (d ∷ dst) (suc n) (Option.map (λ r. 0 ∷ r) copied) []
  unfolding store strlen
  Steps-zero = record {
    mid = 0 ∷ rest.mid;
    out = 0 ∷ rest.out;
    copies = rw rest.copies;
    stores = rw rest.stores;
    same_length = ap suc rest.same_length;
    reads = refl;
    measured = refl;
  }

  Steps-suc : (c : ℕ) → Steps (d ∷ dst) (suc n) (Option.map (λ r. suc c ∷ r) copied) (suc c ∷ text)
  unfolding store strlen
  Steps-suc c = record {
    mid = suc c ∷ rest.mid;
    out = suc c ∷ rest.out;
    copies = rw rest.copies;
    stores = rw rest.stores;
    same_length = ap suc rest.same_length;
    reads = rw rest.reads;
    measured = rw rest.measured;
  }

Steps-pad : (dst : List ℕ) (n : ℕ) → n < length dst → Steps dst n (pad dst n) []
unfolding pad
Steps-pad [] n h = absurd (omega arith)
Steps-pad (d ∷ dst) zero h = Steps-here d dst
Steps-pad (d ∷ dst) (suc n) h = Steps-zero d (Steps-pad dst n (omega arith))

Steps-strncpy :
    (dst src : List ℕ) (n : ℕ)
    → n < length dst
    → n ≤ length src
    → Steps dst n (strncpy dst src n) (text_of (take n src))
unfolding strncpy
Steps-strncpy [] src n h k = absurd (omega arith)
Steps-strncpy (d ∷ dst) src zero h k = Steps-here d dst
Steps-strncpy (d ∷ dst) [] (suc n) h k = absurd (omega arith)
Steps-strncpy (d ∷ dst) (zero ∷ src) (suc n) h k = Steps-zero d (Steps-pad dst n (omega arith))
Steps-strncpy (d ∷ dst) (suc c ∷ src) (suc n) h k =
    Steps-suc d (Steps-strncpy dst src n (omega arith) (omega arith)) c

-- The copy alone faults nowhere then.
pub strncpy_lem :
    (dst src : List ℕ) (n : ℕ)
    → n < length dst
    → n ≤ length src
    → (out : List ℕ) × (strncpy dst src n ≡ some out)
strncpy_lem dst src n h k =
    let all : Steps dst n (strncpy dst src n) (text_of (take n src)) =
      Steps-strncpy dst src n h k in
    (all.mid, all.copies)

-- `strnlen` of at most as many bytes as there are.
pub strnlen_lem :
    (bytes : List ℕ) (n : ℕ) → n ≤ length bytes → (k : ℕ) × (strnlen bytes n ≡ some k) × (k ≤ n)
unfolding strnlen
strnlen_lem bytes zero h = (0, refl, omega arith)
strnlen_lem [] (suc n) h = absurd (omega arith)
strnlen_lem (zero ∷ bytes) (suc n) h = (0, refl, omega arith)
strnlen_lem (suc c ∷ bytes) (suc n) h =
    let rest = strnlen_lem bytes n (omega arith) in
    (suc (rest.0), rw (rest.1) refl, omega (arith, rest.2))

-- A copy that fits the buffer and stays inside the source faults nowhere, keeps the buffer's
-- length, and leaves the source's text there, cut at `n` bytes and terminated.
pub copy_text_lem :
    (dst src : List ℕ) (n : ℕ)
    → n < length dst
    → n ≤ length src
    → Copied dst src n (copy_text dst src n)
unfolding copy_text
copy_text_lem dst src n h k = record {
  out = all.out;
  returns = rw (all.copies, copy_text) all.stores;
  same_length = all.same_length;
  text = all.reads;
  measured = all.measured;
}
  where
    all : Steps dst n (strncpy dst src n) (text_of (take n src))
    all = Steps-strncpy dst src n h k
