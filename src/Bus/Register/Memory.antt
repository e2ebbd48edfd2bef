-- ===== src/Bus/Register/Memory.antt =====
-- The registers as a memory of words: what a write stores is what a read returns.
use zephyr_cyw43_driver.Prelude.{
  ℕ, ◌+◌, ◌/◌, ◌%◌, ◌^◌, ◌<◌, ◌≤◌, ◌≡◌, ◌≢◌, ◌⊎◌, ◌∙◌, sym, ap, arith, Bool, true, false, List, ◌∷◌,
  ◌++◌, some, drop, length,
}
use mathlib.Core.Path.{subst}
use zephyr_cyw43_driver.Prelude.Int.{pos}
use zephyr_cyw43_driver.Bus.Platform.{BusPlatform, BusCall, PinState, Trigger, transceive}
use zephyr_cyw43_driver.Bus.Word.{as_int, make_cmd, word_bytes, word_of}
use zephyr_cyw43_driver.Bus.Word.Fields.{make_cmd_fields}
use zephyr_cyw43_driver.Bus.Transfer.{Bus}
use zephyr_cyw43_driver.Bus.Transfer.Interrupts.{exchanged, masked, unmasked}
use zephyr_cyw43_driver.Bus.Register.{padding, note_write, read_reg_u32, write_reg_u32}
use zephyr_cyw43_driver.Bus.Register.Access.{asked, read_reg_lem, write_reg_lem}

-- The fields of a command word on the wire.
abbrev pub fn_of : ℕ → ℕ
fn_of w = w / 2 ^ 28 % 2 ^ 2

abbrev pub addr_of : ℕ → ℕ
addr_of w = w / 2 ^ 11 % 2 ^ 17

-- Two words of the chip's address spaces that share no byte.
abbrev pub Apart : (fn addr fn' addr' : ℕ) → Type 0
Apart fn addr fn' addr' = (fn ≢ fn') ⊎ (addr + 4 ≤ addr') ⊎ (addr' + 4 ≤ addr)

-- A chip behind the bus, in the words of its protocol: a transfer that starts with a write command
-- for 4 bytes stores the word behind it, and one with a read command for 4 bytes, and for the
-- padding on the backplane, answers with the padding and the word. `word` is what the chip holds
-- after the calls of a log; no transfer fails.
pub record Chip (p : BusPlatform) : Type 0 where
  pub word : List BusCall → (fn addr : ℕ) → ℕ
  pub succeeds : (l : List BusCall) → p.ret l ≡ pos 0
  pub pins : (l : List BusCall) (x : PinState) → word (BusCall.pinctrl_apply x ∷ l) ≡ word l
  pub interrupts :
      (l : List BusCall) (x : Trigger) → word (BusCall.interrupt_configure x ∷ l) ≡ word l
  pub stores :
      (l : List BusCall) (w val : ℕ)
      → w / 2 ^ 31 ≡ 1
      → w % 2 ^ 11 ≡ 4
      → val < 2 ^ 32
      → word (transceive (some (word_bytes w ++ word_bytes val)) 8 0 ∷ l) (fn_of w) (addr_of w)
        ≡ val
  pub spares :
      (l : List BusCall) (w val fn addr : ℕ)
      → w / 2 ^ 31 ≡ 1
      → w % 2 ^ 11 ≡ 4
      → Apart (fn_of w) (addr_of w) fn addr
      → word (transceive (some (word_bytes w ++ word_bytes val)) 8 0 ∷ l) fn addr ≡ word l fn addr
  pub answers :
      (l : List BusCall) (w : ℕ)
      → w / 2 ^ 31 ≡ 0
      → w % 2 ^ 11 ≡ 4 + padding p (fn_of w)
      → let answer : List ℕ =
          p.received (transceive (some (word_bytes w)) 4 (4 + padding p (fn_of w)) ∷ l) in
        (length answer ≡ 4 + padding p (fn_of w))
        × (word_of (drop (padding p (fn_of w)) answer) ≡ word l (fn_of w) (addr_of w))
  pub keeps :
      (l : List BusCall) (w n : ℕ)
      → w / 2 ^ 31 ≡ 0
      → word (transceive (some (word_bytes w)) 4 n ∷ l) ≡ word l

-- A command's fields, for a function and an address that fit them.
pub record Fields (write : Bool) (fn reg size : ℕ) : Type 0 where
  pub direction : make_cmd write true fn reg size / 2 ^ 31 ≡ as_int write
  pub function : fn_of (make_cmd write true fn reg size) ≡ fn
  pub address : addr_of (make_cmd write true fn reg size) ≡ reg
  pub room : make_cmd write true fn reg size % 2 ^ 11 ≡ size

pub Fields-make_cmd :
    (write : Bool) (fn reg size : ℕ)
    → fn < 4
    → reg < 2 ^ 17
    → size < 2 ^ 11
    → Fields write fn reg size
Fields-make_cmd write fn reg size hf hr hs =
    let (small, direction, step, function, address, room) =
      make_cmd_fields write true fn reg size hf hs in
    record {
      direction = direction;
      function = function;
      address = omega (arith, address, hr);
      room = room;
    }

module _ (p : BusPlatform) (chip : Chip p) where
  word-unmasked : (l : List BusCall) → chip.word (unmasked l) ≡ chip.word l
  word-unmasked l = chip.interrupts _ _ ∙ (chip.interrupts _ _ ∙ chip.pins _ _)

  word-masked : (l : List BusCall) → chip.word (masked l) ≡ chip.word l
  word-masked l = chip.pins _ _ ∙ chip.interrupts _ _

  named :
      (l : List BusCall) (w fn reg : ℕ)
      → fn_of w ≡ fn
      → addr_of w ≡ reg
      → chip.word l fn reg ≡ chip.word l (fn_of w) (addr_of w)
  named l w fn reg f a =
      ap (λ x. chip.word l x reg) (sym f) ∙ ap (λ x. chip.word l (fn_of w) x) (sym a)

  -- A write leaves its value in the register's word, and every word apart from it alone.
  record Stored (fn reg val : ℕ) (s t : Bus) : Type 0 where
    pub here : chip.word t.log fn reg ≡ val
    pub elsewhere : (f a : ℕ) → Apart fn reg f a → chip.word t.log f a ≡ chip.word s.log f a

  write_reg-Stored :
      (fn reg val : ℕ) (s : Bus)
      → fn < 4
      → reg < 2 ^ 17
      → val < 2 ^ 32
      → (t : Bus) × (write_reg_u32 p fn reg val s ≡ some (pos 0, t)) × Stored fn reg val s t
  unfolding write_reg_u32
  write_reg-Stored fn reg val s hf hr hv =
      let f : Fields true fn reg 4 = Fields-make_cmd true fn reg 4 hf hr (omega arith) in
      let w : ℕ = make_cmd true true fn reg 4 in
      let l : List BusCall = exchanged (some (word_bytes w ++ word_bytes val)) 8 0 s.log in
      let noted : Bus = note_write p fn w val s in
      let t : Bus = record noted { log = unmasked l } in
      (
        t,
        write_reg_lem p s fn reg val 4 ∙ ap (λ rv. some (rv, t)) (chip.succeeds l),
        record {
          here =
              ap (λ g. g fn reg) (word-unmasked l)
              ∙ (named l w fn reg (f.function) (f.address)
                  ∙ chip.stores (masked s.log) w val (f.direction) (f.room) hv);
          elsewhere = λ g a apart.
              ap (λ m. m g a) (word-unmasked l)
              ∙ (chip.spares (masked s.log) w val g a (f.direction) (f.room) (
                    subst (λ x. Apart x (addr_of w) g a) (sym f.function)
                      (subst (λ x. Apart fn x g a) (sym f.address) apart))
                  ∙ ap (λ m. m g a) (word-masked s.log));
        },
      )

  -- The answer to a read command.
  abbrev Answered : (w fn reg : ℕ) → List BusCall → Type 0
  Answered w fn reg l =
      let answer : List ℕ = p.received (exchanged (some (word_bytes w)) 4 (4 + padding p fn) l) in
      (length answer ≡ 4 + padding p fn)
      × (word_of (drop (padding p fn) answer) ≡ chip.word l fn reg)

  Answered-command :
      (w fn reg : ℕ) (l : List BusCall)
      → fn_of w ≡ fn
      → addr_of w ≡ reg
      → w / 2 ^ 31 ≡ 0
      → w % 2 ^ 11 ≡ 4 + padding p fn
      → Answered w fn reg l
  Answered-command w fn reg l f a direction room =
      subst (λ x. Answered w x reg l) f
        (subst (λ x. Answered w (fn_of w) x l) a
          (let (whole, here) =
              chip.answers (masked l) w direction (room ∙ ap (λ x. 4 + padding p x) (sym f)) in
            (whole, here ∙ ap (λ m. m (fn_of w) (addr_of w)) (word-masked l))))

  -- A read returns the register's word, and leaves every word alone.
  read_reg-word :
      (fn reg : ℕ) (s : Bus)
      → fn < 4
      → reg < 2 ^ 17
      → p.read_pad % 4 ≡ 0
      → p.read_pad + 4 < 2 ^ 11
      → ((l : List BusCall) → length (p.stack l) ≡ p.read_pad + 4)
      → (t : Bus) × (read_reg_u32 p fn reg s ≡ some (chip.word s.log fn reg, t))
        × (chip.word t.log ≡ chip.word s.log)
  unfolding read_reg_u32
  read_reg-word fn reg s hf hr aligned small stack =
      let size : ℕ = (4 + padding p fn) % 2 ^ 32 in
      let size_lem : size ≡ 4 + padding p fn = ground (arith, small) in
      let size_fits : size < 2 ^ 11 = ground (arith, small) in
      let f : Fields false fn reg size = Fields-make_cmd false fn reg size hf hr size_fits in
      let w : ℕ = make_cmd false true fn reg size in
      let l : List BusCall = asked p s fn reg 4 in
      let answer : Answered w fn reg s.log =
        Answered-command w fn reg s.log f.function f.address f.direction (f.room ∙ size_lem) in
      (
        record s { log = unmasked l },
        read_reg_lem p s fn reg 4 aligned (stack s.log) (answer.0)
            ∙ rw (chip.succeeds l) (ap (λ v. some (v, record s { log = unmasked l })) (answer.1)),
        word-unmasked l ∙ (chip.keeps (masked s.log) w _ (f.direction) ∙ word-masked s.log),
      )

  -- What a write of `val`, a read of the same register, and a read of another one return.
  pub record IsMemory (fn reg val fn' reg' : ℕ) (s : Bus) : Type 0 where
    pub old : ℕ
    pub before : Bus
    pub t : Bus
    pub u : Bus
    pub after : Bus
    pub reads_before : read_reg_u32 p fn' reg' s ≡ some (old, before)
    pub writes : write_reg_u32 p fn reg val s ≡ some (pos 0, t)
    pub reads : read_reg_u32 p fn reg t ≡ some (val, u)
    pub reads_after : read_reg_u32 p fn' reg' u ≡ some (old, after)

  -- Over a chip that keeps words by the bus protocol and fails no transfer, the registers of the
  -- bus's four functions are a memory of 32-bit words: what a write stores the next read of that
  -- register returns, from its place behind the padding, and a word that shares no byte with it
  -- reads as before the write. The padding is a multiple of 4, as the driver asserts, and fits the
  -- size field of a command.
  pub read_reg-write_reg :
      (fn reg val fn' reg' : ℕ) (s : Bus)
      → fn < 4
      → reg < 2 ^ 17
      → val < 2 ^ 32
      → fn' < 4
      → reg' < 2 ^ 17
      → Apart fn reg fn' reg'
      → p.read_pad % 4 ≡ 0
      → p.read_pad + 4 < 2 ^ 11
      → ((l : List BusCall) → length (p.stack l) ≡ p.read_pad + 4)
      → IsMemory fn reg val fn' reg' s
  read_reg-write_reg fn reg val fn' reg' s hf hr hv hf' hr' apart aligned small stack =
      let (before, reads_before, kept_before) =
        read_reg-word fn' reg' s hf' hr' aligned small stack in
      let (t, writes, stored) = write_reg-Stored fn reg val s hf hr hv in
      let (u, reads, kept) = read_reg-word fn reg t hf hr aligned small stack in
      let (after, reads_after, kept_after) = read_reg-word fn' reg' u hf' hr' aligned small stack in
      record {
        old = chip.word s.log fn' reg';
        before = before;
        t = t;
        u = u;
        after = after;
        reads_before = reads_before;
        writes = writes;
        reads = reads ∙ ap (λ v. some (v, u)) stored.here;
        reads_after =
            reads_after
            ∙ ap (λ v. some (v, after))
                (ap (λ m. m fn' reg') kept ∙ stored.elsewhere fn' reg' apart);
      }
