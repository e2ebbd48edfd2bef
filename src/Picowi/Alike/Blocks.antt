-- ===== src/Picowi/Alike/Blocks.antt =====
-- Blocks, written through either backend.
use zephyr_cyw43_driver.Prelude.{
  ℕ, zero, suc, ◌+◌, ◌*◌, ◌/◌, ◌≤◌, ◌≡◌, Bool-cases, Option-cases, inl, inr, arith, refl, ap, Bool,
  true, false, not, ltb, leb, ◌==◌, ◌&&◌, ◌||◌, List, ◌∷◌, Option, some, none, take, drop, length,
  if◌then◌else◌, bit_and,
}
use mathlib.Core.Path.{subst}
use zephyr_cyw43_driver.Prelude.Fault.{M, ◌>>=◌, ◌>>◌, pure, assert}
use zephyr_cyw43_driver.Bus.Platform.{BusCall}
use zephyr_cyw43_driver.Bus.Word.{make_cmd, align4, word_bytes}
use zephyr_cyw43_driver.Bus.Transfer.{
  Bus, checked, write_bytes_at, irq_enable, exchange, spi_transfer,
}
use zephyr_cyw43_driver.Bus.Transfer.Interrupts.{exchanged, unmasked, spi_transfer-send}
use zephyr_cyw43_driver.Bus.Register.{read_reg_u32}
use zephyr_cyw43_driver.Bus.Block.{
  buf_offset, ran_out, check_length, put_command, await_f2, send_frame, write_bytes,
}
use zephyr_cyw43_driver.Picowi.Platform.{PicowiPlatform, PicowiCall, pio_spi_write, io_level, wl_cs}
use zephyr_cyw43_driver.Picowi.Transfer as PicowiTransfer
use zephyr_cyw43_driver.Picowi.Transfer.{PicowiBus}
use zephyr_cyw43_driver.Picowi.Register
use zephyr_cyw43_driver.Picowi.Register.Access
use zephyr_cyw43_driver.Picowi.Register.Access.{released}
use zephyr_cyw43_driver.Picowi.Block
use zephyr_cyw43_driver.Picowi.Alike.{spi_sent, picowi_sent, Agree, Alike, SameChip}
use zephyr_cyw43_driver.Picowi.Alike.Registers.{Alike-returns, read_reg-Alike, logged}

-- Sequences are alike part by part.
Alike-bind :
    {A B : Type 0} (m : M Bus A) (m' : M PicowiBus A) (f : A → M Bus B) (f' : A → M PicowiBus B)
    (s : Bus) (t : PicowiBus)
    → Alike (m s) (m' t)
    → ((a : A) (u : Bus) (v : PicowiBus) → Agree u v → Alike (f a u) (f' a v))
    → Alike ((m >>= f) s) ((m' >>= f') t)
Alike-bind {A} {B} m m' f f' s t h k = from (m s) (m' t) h
  where
    from :
        (r : Option (A × Bus)) (r' : Option (A × PicowiBus))
        → Alike r r'
        → Alike
            (elim r as (λ x. Option (B × Bus)) [ none ↦ none | some (a, u) ↦ f a u ])
            (elim r' as (λ x. Option (B × PicowiBus)) [ none ↦ none | some (a, u) ↦ f' a u ])
    from none none h = tt
    from none (some r) h = absurd h
    from (some r) none h = absurd h
    from (some (a, u)) (some (b, v)) h = subst (λ c. Alike (f a u) (f' c v)) (h.0) (k a u v (h.1))

framed :
    {s : Bus} {t : PicowiBus} (frame : List ℕ)
    → Agree s t
    → Agree (record s { frame = frame }) (record t { frame = frame })
framed frame a = record {
  sizes = a.sizes;
  headers = a.headers;
  current = a.current;
  last = a.last;
  frames = refl;
  bytes = a.bytes;
}

-- What is made of the frame, or a fault where that accesses memory outside it.
checked-Alike :
    (f : List ℕ → Option (List ℕ)) (s : Bus) (t : PicowiBus)
    → Agree s t
    → Alike (checked (f s.frame) s) (PicowiTransfer.checked (f t.frame) t)
checked-Alike f s t a =
    subst (λ y. Alike (checked (f s.frame) s) (PicowiTransfer.checked (f y) t)) (a.frames)
      (elim (Option-cases (f s.frame)) [ inl e ↦ rw (e) tt | inr (x, e) ↦ rw (e) (refl, a) ])

assert-Alike : (b : Bool) (s : Bus) (t : PicowiBus) → Agree s t → Alike (assert b s) (assert b t)
assert-Alike true s t a = (refl, a)
assert-Alike false s t a = tt

module _ (q : PicowiPlatform) where
  check_length-Alike :
      (fn len : ℕ) (s : Bus) (t : PicowiBus)
      → Agree s t
      → Alike (check_length q.constants fn len s) (Block.check_length q fn len t)
  unfolding check_length Block.check_length
  check_length-Alike fn len s t a =
      let short : M Bus ℕ = (do
        assert (ltb 0 (align4 len) && leb (align4 len) 0x7f8)
        pure (align4 len)) in
      let short' : M PicowiBus ℕ = (do
        assert (ltb 0 (align4 len) && leb (align4 len) 0x7f8)
        pure (align4 len)) in
      let fits : Bool =
        not (fn == q.constants.backplane_function) || leb len q.constants.max_block_size in
      Alike-bind (assert fits) (assert fits) (λ _. short) (λ _. short') s t
        (assert-Alike fits s t a)
        (λ _ u v b.
          let aligned : Bool = ltb 0 (align4 len) && leb (align4 len) 0x7f8 in
          Alike-bind (assert aligned) (assert aligned) (λ _. pure (align4 len))
            (λ _. pure (align4 len)) u v (assert-Alike aligned u v b) (λ _ w x c. (refl, c)))

  put_command-Alike :
      (at cmd : ℕ) (s : Bus) (t : PicowiBus)
      → Agree s t
      → Alike (put_command q.constants at cmd s) (Block.put_command q at cmd t)
  unfolding put_command Block.put_command
  put_command-Alike at cmd s t a =
      Alike-bind (checked _) (PicowiTransfer.checked _) _ _ s t
        (checked-Alike (λ x. write_bytes_at x at (word_bytes cmd)) s t a)
        (λ x u v b. (refl, framed x b))

  module _ (chip : SameChip q) where
    -- More bytes than there are.
    refused :
        (tx : List ℕ) (n : ℕ) (s : Bus)
        → leb n (length tx) ≡ false
        → spi_transfer q.constants (some tx) n none 0 s ≡ none
    unfolding spi_transfer exchange irq_enable
    refused tx n s long = ground arith

    refused' :
        (tx : List ℕ) (n : ℕ) (t : PicowiBus)
        → leb n (length tx) ≡ false
        → PicowiTransfer.spi_transfer q (some tx) n none 0 t ≡ none
    unfolding PicowiTransfer.spi_transfer
    refused' tx n t long = ground arith

    -- The two send the bytes, and report success.
    transfer-Alike :
        (tx : List ℕ) (n : ℕ) (s : Bus) (t : PicowiBus)
        → Agree s t
        → Alike
            ((spi_transfer q.constants (some tx) n none 0 >>= λ r. pure (r.0)) s)
            ((PicowiTransfer.spi_transfer q (some tx) n none 0 >>= λ r. pure (r.0)) t)
    transfer-Alike tx n s t a = elim (Bool-cases (leb n (length tx))) [
      | inl fits ↦
          let same : spi_sent s.log ≡ picowi_sent t.log = a.bytes in
          let bytes : List ℕ = take n tx in
          let k : List PicowiCall =
            released (pio_spi_write bytes (n * 8) ∷ io_level wl_cs 0 ∷ t.log) in
          let h : n ≤ length tx = ground arith in
          let l : List BusCall = exchanged (some bytes) n 0 s.log in
          Alike-returns {a = q.constants.ret l} {s = record s { log = unmasked l }}
            {t = record t { log = k }} (rw (◌>>=◌, spi_transfer-send q.constants s tx n h) refl)
            (rw (◌>>=◌, Access.spi_transfer-send q t tx n h) refl) (chip.succeeds l)
            (logged {l = unmasked l} {k = k} a (ap (λ x. bytes ∷ x) same))
      | inr long ↦ rw (◌>>=◌, refused tx n s long, refused' tx n t long) tt
    ]

    await_f2-Alike :
        (n : ℕ) (s : Bus) (t : PicowiBus)
        → (q.constants.bus_function == q.constants.backplane_function) ≡ false
        → Agree s t
        → Alike (await_f2 q.constants n s) (Block.await_f2 q n t)
    unfolding await_f2 Block.await_f2 read_reg_u32 Register.read_reg_u32
    await_f2-Alike zero s t other a = (refl, a)
    await_f2-Alike (suc n) s t other a =
        Alike-bind (read_reg_u32 q.constants _ _) (Register.read_reg_u32 q _ _) _ _ s t
          (read_reg-Alike q chip q.constants.bus_function q.constants.status_register 4 s t
            (omega arith) other a)
          (λ w u v b. elim (Bool-cases (bit_and w q.constants.f2_rx_ready == 0)) [
            | inl busy ↦ rw (busy) (await_f2-Alike n u v other b)
            | inr ready ↦ rw (ready) (refl, b)
          ])

    send_frame-Alike :
        (fn addr len aligned_len : ℕ) (src : Option (List ℕ)) (s : Bus) (t : PicowiBus)
        → Agree s t
        → Alike
            (send_frame q.constants fn addr len aligned_len src s)
            (Block.send_frame q fn addr len aligned_len src t)
    unfolding send_frame Block.send_frame
    send_frame-Alike fn addr len aligned_len src s t a =
        Alike-bind (put_command q.constants _ _) (Block.put_command q _ _) _ _ s t
          (put_command-Alike (q.constants.read_pad / 4 * 4) (make_cmd true true fn addr len) s t a)
          (λ _ u v b.
            Alike-bind (checked _) (PicowiTransfer.checked _) _ _ u v
              (checked-Alike
                (λ frame. elim src [
                  | none ↦ some frame
                  | some bytes ↦
                      if leb len (length bytes)
                      then write_bytes_at frame (buf_offset q.constants) (take len bytes)
                      else none
                ])
                u v b)
              (λ frame w x c.
                transfer-Alike (drop (q.constants.read_pad / 4 * 4) frame) (aligned_len + 4)
                  (record w { frame = frame }) (record x { frame = frame }) (framed frame c)))

    -- Over the same chip, from states that agree, both backends do the same for a write of a block,
    -- whatever it is given: they fault alike, or return the same code, send the same bytes in the
    -- same order, the polls of the status register included, and leave the same notes and frame.
    pub write_bytes-Alike :
        (fn addr len : ℕ) (src : Option (List ℕ)) (s : Bus) (t : PicowiBus)
        → (q.constants.bus_function == q.constants.backplane_function) ≡ false
        → Agree s t
        → Alike (write_bytes q.constants fn addr len src s) (Block.write_bytes q fn addr len src t)
    unfolding write_bytes Block.write_bytes
    write_bytes-Alike fn addr len src s t other a =
        Alike-bind (check_length q.constants _ _) (Block.check_length q _ _) _ _ s t
          (check_length-Alike fn len s t a)
          (λ n u v b. elim (Bool-cases (fn == q.constants.wlan_function)) [
            | inl wlan ↦ rw (wlan) (
                Alike-bind (await_f2 q.constants 1000) (Block.await_f2 q 1000) _ _ u v
                  (await_f2-Alike 1000 u v other b)
                  (λ left w x c. elim (Bool-cases (ran_out q.constants left)) [
                    | inl late ↦ rw (late) (refl, c)
                    | inr ready ↦ rw (ready) (send_frame-Alike fn addr len n src w x c)
                  ]))
            | inr not_wlan ↦ rw (not_wlan) (send_frame-Alike fn addr len n src u v b)
          ])
