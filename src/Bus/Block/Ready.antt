-- ===== src/Bus/Block/Ready.antt =====
-- The wait for the radio's FIFO in `cyw43_write_bytes`.
use mathlib.Core.Path.{subst}
use zephyr_cyw43_driver.Prelude.{
  ℕ, zero, suc, ◌+◌, ◌<◌, ◌≡◌, ◌⊎◌, inl, inr, arith, refl, sym, ==_iff, Option-cases, Bool, true,
  false, List, Option, none, some, ◌==◌, bit_and, Bool-cases,
}
use zephyr_cyw43_driver.Prelude.Int.{ℤ, negate}
use zephyr_cyw43_driver.Prelude.Fault.{M, pure, Returns, Returns-weaken, ◌>>=◌}
use zephyr_cyw43_driver.Bus.Platform.{BusPlatform}
use zephyr_cyw43_driver.Bus.Word.{align4}
use zephyr_cyw43_driver.Bus.Transfer.{Bus}
use zephyr_cyw43_driver.Bus.Register.{read_reg_u32}
use zephyr_cyw43_driver.Bus.Block.{check_length, await_f2, ran_out, send_frame, write_bytes}

module _ (p : BusPlatform) where
  -- One read of the status register from the state `s`, which ends in `t`; `idle` is whether the
  -- bit that tells that the FIFO takes data is clear.
  abbrev pub Status : Bool → Bus → Bus → Type 0
  Status idle s t =
      (w : ℕ) × (read_reg_u32 p p.bus_function p.status_register s ≡ some (w, t))
      × ((bit_and w p.f2_rx_ready == 0) ≡ idle)

  -- `k` reads in a row found the bit clear.
  unfoldable pub Busy : ℕ → Bus → Bus → Type 0
  Busy zero s t = t ≡ s
  Busy (suc k) s t = (u : Bus) × Status true s u × Busy k u t

  -- Every read of the status register returns.
  abbrev pub Answers : Type 0
  Answers = (s : Bus) → (r : ℕ × Bus) × (read_reg_u32 p p.bus_function p.status_register s ≡ some r)

  -- The loop left with the counter at `left`.
  pub record IsAwaited (n : ℕ) (s : Bus) (left : Option ℕ) (t : Bus) : Type 0 where
    pub result :
        ((left ≡ none) × Busy n s t)
        ⊎ ((k : ℕ) × (j : ℕ) × (u : Bus) × (left ≡ some j)
            × (k + suc j ≡ n)
            × Busy k s u
            × Status false u t)

  -- One more read in front of a wait.
  IsAwaited-Busy :
      (n : ℕ) (s u : Bus)
      → Status true s u
      → (left : Option ℕ) (t : Bus) → IsAwaited n u left t
      → IsAwaited (suc n) s left t
  unfolding Busy
  IsAwaited-Busy n s u h left t i = elim (i.result) [
    | inl (e, b) ↦ record { result = inl (e, (u, h, b)) }
    | inr (k, j, v, e, sum, b, st) ↦ record {
      result = inr (suc k, j, v, e, ground arith, (u, h, b), st);
    }
  ]

  pub await_f2-IsAwaited : Answers → (n : ℕ) (s : Bus) → Returns (IsAwaited n s) (await_f2 p n s)
  unfolding await_f2 Busy
  await_f2-IsAwaited a zero s = record { result = inl (refl, refl) }
  await_f2-IsAwaited a (suc n) s =
      let ((w, u), e) = a s in
      rw (e, ◌>>=◌)
        elim (Bool-cases (bit_and w p.f2_rx_ready == 0)) [
          | inl t ↦ rw (t) (
              Returns-weaken (IsAwaited n u) (IsAwaited (suc n) s) (await_f2 p n u)
                (await_f2-IsAwaited a n u) (IsAwaited-Busy n s u (w, e, t)))
          | inr f ↦ rw (f) (record { result = inr (0, n, s, refl, ground arith, refl, (w, e, f)) })
        ]

  -- The wait finds the bit set by the read number `k + 1`, of which the first `k` found it clear.
  abbrev pub ReadyAfter : ℕ → Bus → Bus → Type 0
  ReadyAfter k s t = (u : Bus) × Busy k s u × Status false u t

  -- What a write to the radio does from `s`.
  abbrev pub Written : ℕ → ℕ → Option (List ℕ) → Bus → Option (ℤ × Bus) → Type 0
  Written addr len src s r =
      ((k : ℕ) × (t : Bus) × (k < 999)
        × ReadyAfter k s t
        × (r ≡ send_frame p p.wlan_function addr len (align4 len) src t))
      ⊎ ((t : Bus) × (ReadyAfter 999 s t ⊎ Busy 1000 s t)
          × (r ≡ some (p.fail_fast_check (negate p.eio), t)))

  -- `cyw43_write_bytes` to the radio, from where its wait ends.
  write_bytes-wlan :
      (addr len : ℕ) (src : Option (List ℕ)) (s t : Bus) (left : Option ℕ)
      → await_f2 p 1000 s ≡ some (left, t)
      → check_length p p.wlan_function len s ≡ some (align4 len, s)
      → (p.wlan_function == p.wlan_function) ≡ true
      → write_bytes p p.wlan_function addr len src s
        ≡ (elim (ran_out p left) as (λ x. M Bus ℤ) [
          | true ↦ pure (p.fail_fast_check (negate p.eio))
          | false ↦ send_frame p p.wlan_function addr len (align4 len) src
        ])
            t
  unfolding write_bytes
  write_bytes-wlan addr len src s t left e c w = rw (c, ◌>>=◌, w, e) refl

  Written-IsAwaited :
      (addr len : ℕ) (src : Option (List ℕ)) (s : Bus) (left : Option ℕ) (t : Bus)
      → IsAwaited 1000 s left t
      → Written addr len src s (
          (elim (ran_out p left) as (λ x. M Bus ℤ) [
            | true ↦ pure (p.fail_fast_check (negate p.eio))
            | false ↦ send_frame p p.wlan_function addr len (align4 len) src
          ])
            t)
  Written-IsAwaited addr len src s none t i = elim (i.result) [
    | inl (e, b) ↦ inr (t, inr b, refl)
    | inr (k, j, u, e, sum, b, st) ↦ ground arith
  ]
  Written-IsAwaited addr len src s (some zero) t i = elim (i.result) [
    | inl (e, b) ↦ ground arith
    | inr (k, j, u, e, sum, b, st) ↦
        let all : k ≡ 999 = ground arith in
        inr (t, inl (u, subst (λ i. Busy i s u) all b, st), refl)
  ]
  Written-IsAwaited addr len src s (some (suc n)) t i = elim (i.result) [
    | inl (e, b) ↦ ground arith
    | inr (k, j, u, e, sum, b, st) ↦
        let more : ran_out p (some (suc n)) ≡ false = ground arith in
        inl (k, t, ground arith, (u, b, st), (rw (more) refl))
  ]

  -- For a length that the checks allow, and if every read of the status register returns, a write
  -- to the radio either finds the FIFO ready by one of the first 999 reads, and then is the
  -- transfer of the frame from there; or it fails with `CYW43_EIO`, and then the FIFO was not
  -- ready at any of the 1000 reads, or became ready at the last of them.
  pub write_bytes-Written :
      Answers
      → (addr len : ℕ) (src : Option (List ℕ)) (s : Bus)
      → check_length p p.wlan_function len s ≡ some (align4 len, s)
      → Written addr len src s (write_bytes p p.wlan_function addr len src s)
  write_bytes-Written a addr len src s c = elim (Option-cases (await_f2 p 1000 s)) [
    | inl e ↦ absurd (subst (Returns (IsAwaited 1000 s)) e (await_f2-IsAwaited a 1000 s))
    | inr ((left, t), e) ↦
        subst (Written addr len src s)
          (sym (write_bytes-wlan addr len src s t left e c ((==_iff _ _).1 refl)))
          (Written-IsAwaited addr len src s left t
            (subst (Returns (IsAwaited 1000 s)) e (await_f2-IsAwaited a 1000 s)))
  ]
