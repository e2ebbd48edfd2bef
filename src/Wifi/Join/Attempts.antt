-- ===== src/Wifi/Join/Attempts.antt =====
-- The loops of `zephyr_cyw43_connect`, against a description of their calls.
use zephyr_cyw43_driver.Prelude.{
  ℕ, zero, suc, ◌+◌, ◌≤◌, ◌<◌, ◌++◌, ap, ◌∙◌, replicate, ◌≡◌, refl, ◌⊎◌, inl, inr, arith,
}
use zephyr_cyw43_driver.Prelude.{
  Bool, true, false, List, ◌∷◌, Option, some, Bool-cases, Option-cases, sym,
}
use mathlib.Core.Path.{subst}
use zephyr_cyw43_driver.Prelude.Int.{ℤ, pos, is_zero}
use zephyr_cyw43_driver.Prelude.Fault.{Returns, Returns-bind, Returns-weaken, ◌>>=◌}
use zephyr_cyw43_driver.Wifi.Platform.{
  Platform, Network, Call, Link, wifi_link_status, wifi_join, sleep,
}
use zephyr_cyw43_driver.Wifi.Device.{Driver, Device}
use zephyr_cyw43_driver.Wifi.Counts.{joins, networks, locks, unlocks, connect_events}
use zephyr_cyw43_driver.Wifi.Join.{at_hand, link_holds, join_attempts}

-- From the log `l` on, `k` polls found the link up, with half a second behind each.
abbrev pub Holds : Platform → ℕ → List Call → List Call → Type 0
Holds p zero l l' = l' ≡ l
Holds p (suc k) l l' =
    (p.link (wifi_link_status ∷ l) ≡ Link.join) × Holds p k (sleep 500 ∷ wifi_link_status ∷ l) l'

-- What `k` polls from the state `s` leave.
pub record IsPolled (p : Platform) (k : ℕ) (s : Driver) (held : Bool) (s' : Driver) : Type 0 where
  pub same_dev : s'.dev ≡ s.dev
  pub same_joins : joins s'.log ≡ joins s.log
  pub same_networks : networks s'.log ≡ networks s.log
  pub same_locks : locks s'.log ≡ locks s.log
  pub same_unlocks : unlocks s'.log ≡ unlocks s.log
  pub same_events : connect_events s'.log ≡ connect_events s.log
  pub holds : held ≡ true → Holds p k s.log s'.log

pub link_holds-IsPolled :
    (p : Platform) (k : ℕ) (s : Driver) → Returns (IsPolled p k s) (link_holds p k s)
unfolding link_holds
link_holds-IsPolled p zero s = ground arith
link_holds-IsPolled p (suc k) s =
    ground
      (arith, link_holds-IsPolled p k (record s { log = sleep 500 ∷ wifi_link_status ∷ s.log }))

-- One attempt of a join, at the log `l`: the library took the request, and eight polls in a row
-- found the link up. Nothing follows it in `l'`.
pub record Succeeded (p : Platform) (n : Network) (l' : List Call) : Type 0 where
  pub l : List Call
  pub accepted : is_zero (p.ret (wifi_join n ∷ l)) ≡ true
  pub holds : Holds p 8 (wifi_join n ∷ l) l'

-- What `i` attempts from the state `s` leave; each of them was for the network `n`.
pub record IsJoined (p : Platform) (n : Network) (i : ℕ) (s : Driver) (rv : ℤ) (s' : Driver)
    : Type 0 where
  pub same_dev : s'.dev ≡ s.dev
  pub few : joins s'.log ≤ joins s.log + i
  pub attempts : ℕ
  pub some_attempt : 0 < i → 0 < attempts
  pub tried : networks s'.log ≡ replicate attempts n ++ networks s.log
  pub same_locks : locks s'.log ≡ locks s.log
  pub same_unlocks : unlocks s'.log ≡ unlocks s.log
  pub same_events : connect_events s'.log ≡ connect_events s.log
  pub result :
      ((rv ≡ pos 0) × Succeeded p n s'.log)
      ⊎ ((is_zero rv ≡ false) × (joins s'.log ≡ joins s.log + i))

replicate-suc :
    (k : ℕ) (n : Network) (l : List Network) → replicate k n ++ (n ∷ l) ≡ n ∷ (replicate k n ++ l)
replicate-suc zero n l = refl
replicate-suc (suc k) n l = ap (λ (t : List Network). n ∷ t) (replicate-suc k n l)

module _ (p : Platform) (n : Network) where
  -- After an attempt that failed, what the rest leaves counts from the start.
  IsJoined-suc :
      (i : ℕ) (s t : Driver) (r : Option (ℤ × Driver))
      → t.dev ≡ s.dev
      → joins t.log ≡ suc (joins s.log)
      → networks t.log ≡ n ∷ networks s.log
      → locks t.log ≡ locks s.log
      → unlocks t.log ≡ unlocks s.log
      → connect_events t.log ≡ connect_events s.log
      → Returns (IsJoined p n i t) r
      → Returns (IsJoined p n (suc i) s) r
  IsJoined-suc i s t r d e m f g h j =
      Returns-weaken (IsJoined p n i t) (IsJoined p n (suc i) s) r j (λ rv s' k. record {
        same_dev = k.same_dev ∙ d;
        few = omega (arith, k.few, e);
        attempts = suc k.attempts;
        some_attempt = λ _. omega arith;
        tried =
            k.tried
            ∙ ap (λ (l : List Network). replicate k.attempts n ++ l) m
            ∙ replicate-suc k.attempts n (networks s.log);
        same_locks = k.same_locks ∙ f;
        same_unlocks = k.same_unlocks ∙ g;
        same_events = k.same_events ∙ h;
        result = ground arith;
      })

  -- `m` was computed before the loop, and with the texts that the device holds it is `n`.
  pub join_attempts-IsJoined :
      (m : Network) (i : ℕ) (rv : ℤ) (s : Driver)
      → at_hand m s.dev.connect_params ≡ n
      → is_zero rv ≡ false
      → Returns (IsJoined p n i s) (join_attempts p i m rv s)
  unfolding join_attempts
  join_attempts-IsJoined m zero rv s e h = record {
    same_dev = refl;
    few = omega arith;
    attempts = 0;
    some_attempt = λ lt. absurd (omega arith);
    tried = refl;
    same_locks = refl;
    same_unlocks = refl;
    same_events = refl;
    result = inr (h, omega arith);
  }
  join_attempts-IsJoined m (suc i) rv s e h =
      let t : Driver = record s { log = wifi_join n ∷ s.log } in
      elim (Bool-cases (is_zero (p.ret t.log))) [
        | inl taken ↦
            rw (e, taken, Returns, join_attempts)
              (Returns-bind (IsPolled p 8 t) (IsJoined p n (suc i) s) (link_holds p 8) _ t
                (link_holds-IsPolled p 8 t)
                (elim [
                  | true ↦ λ u polled. record {
                    same_dev = polled.same_dev;
                    few = omega (arith, polled.same_joins);
                    attempts = 1;
                    some_attempt = λ _. omega arith;
                    tried = polled.same_networks;
                    same_locks = polled.same_locks;
                    same_unlocks = polled.same_unlocks;
                    same_events = polled.same_events;
                    result =
                        inl
                          (refl, record { l = s.log; accepted = taken; holds = polled.holds refl });
                  }
                  | false ↦ λ u polled.
                      IsJoined-suc i s u _ polled.same_dev polled.same_joins polled.same_networks
                        polled.same_locks polled.same_unlocks polled.same_events
                        (join_attempts-IsJoined m i (pos 1) u
                          (ap (λ (d : Device). at_hand m d.connect_params) polled.same_dev ∙ e)
                          refl)
                ]))
        | inr refused ↦
            rw (e, refused, Returns, join_attempts, e)
              (IsJoined-suc i s t _ refl refl refl refl refl refl
                (join_attempts-IsJoined m i (p.ret t.log) t e refused))
      ]

module _ (p : Platform) (m : Network) where
  -- One attempt: it is the last one, or it failed and the loop goes on with the rest.
  abbrev Attempted : (r : ℤ) (s : Driver) → Type 0
  Attempted r s =
      ((u : Driver) × ((i : ℕ) → join_attempts p (suc i) m r s ≡ some (pos 0, u)))
      ⊎ ((r' : ℤ) × (u : Driver) × ((i : ℕ)
            → join_attempts p (suc i) m r s ≡ join_attempts p i m r' u))

  join_attempts-suc : (r : ℤ) (s : Driver) → Attempted r s
  unfolding join_attempts
  join_attempts-suc r s =
      let t : Driver = record s { log = wifi_join (at_hand m s.dev.connect_params) ∷ s.log } in
      elim (Bool-cases (is_zero (p.ret t.log))) [
        | inr refused ↦ inr (p.ret t.log, t, λ i. rw (join_attempts, ◌>>=◌, refused) refl)
        | inl taken ↦ elim (Option-cases (link_holds p 8 t)) [
          | inl none_held ↦ absurd (subst (Returns _) none_held (link_holds-IsPolled p 8 t))
          | inr ((true, u), held) ↦ inl (u, λ i. rw (join_attempts, ◌>>=◌, taken, ◌>>=◌, held) refl)
          | inr ((false, u), lost) ↦
              inr (pos 1, u, λ i. rw (join_attempts, ◌>>=◌, taken, ◌>>=◌, lost) refl)
        ]
      ]

  -- The run `whole` goes on from the state that `first` leaves, unless that has the code 0.
  abbrev GoesOn : ℕ → Option (ℤ × Driver) → Option (ℤ × Driver) → Type 0
  GoesOn j whole first =
      Returns (λ rv u. (is_zero rv ≡ true) ⊎ (whole ≡ join_attempts p j m rv u)) first

  pub join_attempts-add :
      (i j : ℕ) (r : ℤ) (s : Driver)
      → GoesOn j (join_attempts p (i + j) m r s) (join_attempts p i m r s)
  unfolding join_attempts
  join_attempts-add zero j r s = inr (ap (λ k. join_attempts p k m r s) (omega arith))
  join_attempts-add (suc i) j r s =
      let e : suc i + j ≡ suc (i + j) = omega arith in
      subst (λ k. GoesOn j (join_attempts p k m r s) (join_attempts p (suc i) m r s)) (sym e)
        (elim (join_attempts-suc r s) [
          | inl (u, done) ↦ subst (GoesOn j _) (sym (done i)) (inl refl)
          | inr (r', u, on) ↦
              subst (λ x. GoesOn j x (join_attempts p (suc i) m r s)) (sym (on (i + j)))
                (subst (GoesOn j _) (sym (on i)) (join_attempts-add i j r' u))
        ])
