-- ===== src/Picowi/Alike/Registers.antt =====
-- Registers, accessed through either backend.
use zephyr_cyw43_driver.Prelude.{
  Bool-cases, inl, inr, ℕ, ◌+◌, ◌%◌, ◌^◌, ◌<◌, ◌≡◌, arith, refl, ap, sym, ◌∙◌, true, false, List,
  ◌∷◌, ◌++◌, some, drop, length, Option, ◌==◌, if◌then◌else◌,
}
use mathlib.Core.Path.{subst}
use zephyr_cyw43_driver.Prelude.Int.{is_zero, to_u32}
use zephyr_cyw43_driver.Prelude.Fault.{◌>>=◌, ◌>>◌}
use zephyr_cyw43_driver.Bus.Platform.{BusCall}
use zephyr_cyw43_driver.Bus.Word.{make_cmd, word_bytes, word_of}
use zephyr_cyw43_driver.Bus.Transfer.{Bus}
use zephyr_cyw43_driver.Bus.Register.{padding, note_write, read_reg, write_reg}
use zephyr_cyw43_driver.Bus.Register.Access.{read_reg_lem, write_reg_lem}
use zephyr_cyw43_driver.Bus.Transfer.Interrupts.{exchanged, masked, unmasked}
use zephyr_cyw43_driver.Picowi.Platform.{PicowiPlatform, PicowiCall, pio_spi_write, io_level, wl_cs}
use zephyr_cyw43_driver.Picowi.Transfer.{PicowiBus}
use zephyr_cyw43_driver.Picowi.Register
use zephyr_cyw43_driver.Picowi.Register.Access.{
  released, sent, spi_transfer-send, read_reg-pairs, read_reg-whole,
}
use zephyr_cyw43_driver.Picowi.Alike.{spi_sent, picowi_sent, Agree, Alike, SameChip}

-- Two runs that return, by what they return.
pub Alike-returns :
    {A : Type 0} {r : Option (A × Bus)} {r' : Option (A × PicowiBus)} {a b : A} {s : Bus}
    {t : PicowiBus}
    → r ≡ some (a, s)
    → r' ≡ some (b, t)
    → a ≡ b
    → Agree s t
    → Alike r r'
Alike-returns {a} {b} {s} {t} e f same agree = rw (e, f) (same, agree)

-- Two logs that go on with the same bytes.
pub logged :
    {s : Bus} {t : PicowiBus} {l : List BusCall} {k : List PicowiCall}
    → Agree s t
    → spi_sent l ≡ picowi_sent k
    → Agree (record s { log = l }) (record t { log = k })
logged a e = record {
  sizes = a.sizes;
  headers = a.headers;
  current = a.current;
  last = a.last;
  frames = a.frames;
  bytes = e;
}

module _ (q : PicowiPlatform) (chip : SameChip q) (fn reg size : ℕ) where
  abbrev cmd : ℕ
  cmd = make_cmd false true fn reg size

  -- The log of the first backend, at a padding.
  abbrev spi_asked : ℕ → List BusCall → List BusCall
  spi_asked n l =
      exchanged (some (word_bytes (make_cmd false true fn reg ((size + n) % 2 ^ 32)))) 4 (4 + n) l

  -- What the first backend returns of a register outside the backplane.
  spi-read :
      (s : Bus)
      → size < 2 ^ 32
      → (fn == q.constants.backplane_function) ≡ false
      → let l = exchanged (some (word_bytes cmd)) 4 4 s.log in
        read_reg q.constants fn reg size s
        ≡ some (word_of (q.constants.received l), record s { log = unmasked l })
  spi-read s small other =
      let none_padded : padding q.constants fn ≡ 0 = ground arith in
      let result : ℕ → List BusCall → Option (ℕ × Bus) = λ n l. some (
        (if is_zero (q.constants.ret l)
            then word_of (drop n (q.constants.received l))
            else to_u32 (q.constants.ret l)),
        record s { log = unmasked l },
      ) in
      let given : length (q.constants.received (spi_asked (padding q.constants fn) s.log))
          ≡ 4 + padding q.constants fn =
        subst (λ n. length (q.constants.received (spi_asked n s.log)) ≡ 4 + n) (sym none_padded)
          (chip.spi_word _ (masked s.log)) in
      let narrow : spi_asked 0 s.log ≡ exchanged (some (word_bytes cmd)) 4 4 s.log =
        ap (λ z. exchanged (some (word_bytes (make_cmd false true fn reg z))) 4 4 s.log)
          (omega arith) in
      read_reg_lem q.constants s fn reg size (chip.aligned) (chip.stack s.log) given
      ∙ ap (λ n. result n (spi_asked n s.log)) none_padded
      ∙ ap (result 0) narrow
      ∙ rw (chip.succeeds (exchanged (some (word_bytes cmd)) 4 4 s.log)) refl

  -- A register outside the backplane: over the same chip, from states that agree, both backends
  -- return the same word and leave states that agree, with and without the byte reordering.
  pub read_reg-Alike :
      (s : Bus) (t : PicowiBus)
      → size < 2 ^ 32
      → (fn == q.constants.backplane_function) ≡ false
      → Agree s t
      → Alike (read_reg q.constants fn reg size s) (Register.read_reg q fn reg size t)
  read_reg-Alike s t small other agree =
      let k : List PicowiCall = sent q t fn reg size in
      let l : List BusCall = masked s.log in
      let more : spi_sent (exchanged (some (word_bytes cmd)) 4 4 s.log) ≡ picowi_sent k =
        ap (λ x. word_bytes cmd ∷ x) (agree.bytes) in
      let same = chip.same_word (some (word_bytes cmd)) l k more in
      elim (Bool-cases t.byte_reordering) [
        | inl on ↦
            Alike-returns (spi-read s small other)
              (read_reg-pairs q t fn reg size 0 on (chip.aligned) (ground arith)
                (chip.uninitialised t.log) (chip.word))
              (same.0) (logged agree more)
        | inr off ↦
            Alike-returns (spi-read s small other)
              (read_reg-whole q t fn reg size off other (chip.aligned) (chip.padded)
                (chip.uninitialised t.log) (chip.pair k))
              (same.1) (logged agree more)
      ]

module _ (q : PicowiPlatform) (chip : SameChip q) (fn reg val size : ℕ) where
  abbrev write_cmd : ℕ
  write_cmd = make_cmd true true fn reg size

  abbrev backplane : ℕ
  backplane = q.constants.backplane_function

  -- Both make the same note.
  note_write-Agree :
      (s : Bus) (t : PicowiBus)
      → Agree s t
      → Agree
          (note_write q.constants fn write_cmd val s)
          (Register.note_write backplane fn write_cmd val t)
  unfolding note_write Register.note_write
  note_write-Agree s t a = elim (Bool-cases (fn == backplane)) [
    | inl back ↦ rw (back) (record {
      sizes = refl;
      headers = refl;
      current = a.current;
      last = a.current;
      frames = a.frames;
      bytes = a.bytes;
    })
    | inr other ↦ rw (other) a
  ]

  log-note_write :
      (t : PicowiBus)
      → let u : PicowiBus = Register.note_write backplane fn write_cmd val t in u.log ≡ t.log
  unfolding Register.note_write
  log-note_write t = ground arith

  -- Any register: over the same chip, from states that agree, both backends send the same bytes for
  -- a write, make the same note of it, and return 0.
  pub write_reg-Alike :
      (s : Bus) (t : PicowiBus)
      → Agree s t
      → Alike (write_reg q.constants fn reg val size s) (Register.write_reg q fn reg val size t)
  unfolding Register.write_reg
  write_reg-Alike s t agree =
      let bytes : List ℕ = word_bytes write_cmd ++ word_bytes val in
      let u : PicowiBus = Register.note_write backplane fn write_cmd val t in
      let same : spi_sent s.log ≡ picowi_sent u.log =
        agree.bytes ∙ ap picowi_sent (sym (log-note_write t)) in
      let l : List BusCall = exchanged (some bytes) 8 0 s.log in
      let k : List PicowiCall = released (pio_spi_write bytes 64 ∷ io_level wl_cs 0 ∷ u.log) in
      Alike-returns {t = record u { log = k }} (write_reg_lem q.constants s fn reg val size)
        (rw (◌>>=◌, ◌>>◌, spi_transfer-send q u bytes 8 (omega arith)) refl) (chip.succeeds l)
        (logged {k = k} (note_write-Agree s t agree) (ap (λ x. bytes ∷ x) same))
