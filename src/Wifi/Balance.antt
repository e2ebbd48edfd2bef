-- ===== src/Wifi/Balance.antt =====
-- What every entry of the driver keeps: it gives back the lock as often as it takes it, changes the
-- request only where it submits the work item, never takes the scan's callback away, and counts
-- frames only where it handles them.
pub mod Entries
pub mod Requested
pub mod Requests
use zephyr_cyw43_driver.Prelude.{
  ℕ, zero, suc, ◌+◌, ◌<◌, ◌≡◌, ◌⊎◌, ap, sym, ◌∙◌, Bool, Bool-cases, Option-cases, inl, inr, true,
  false, arith, refl, List, ◌∷◌, Option, none, some,
}
use zephyr_cyw43_driver.Prelude.Int.{ℤ, is_zero}
use zephyr_cyw43_driver.Prelude.Fault.{
  M, ◌>>=◌, ◌>>◌, pure, when, get, IfReturns, IfReturns-bind, IfReturns-weaken,
}
use zephyr_cyw43_driver.Wifi.Platform.{
  Platform, Config, Call, Network, Security, no_security, wpa_psk, psk, unknown, Link, join,
}
use zephyr_cyw43_driver.Wifi.Device.{
  Driver, ConnectParams, Request, perform, invoke, update_dev, checked, scan_active, link_status,
}
use zephyr_cyw43_driver.Wifi.Counts.{
  locks, unlocks, submits, sends, sent_bytes, reads, writes, unrefs,
}

-- Between the two states the lock was released as often as it was taken.
abbrev pub Even : Driver → Driver → Type 0
Even s t = locks t.log + unlocks s.log ≡ locks s.log + unlocks t.log

abbrev pub is_set : Option ℕ → Bool
is_set none = false
is_set (some cb) = true

-- Either the scan's callback is set, or it is what it was.
abbrev pub Callback : Driver → Driver → Type 0
Callback s t = (is_set t.dev.scan_cb ≡ true) ⊎ (t.dev.scan_cb ≡ s.dev.scan_cb)

abbrev pub asks_scan : Request → Bool
asks_scan Request.active_scan = true
asks_scan Request.passive_scan = true
asks_scan _ = false

-- Where the request is a scan the callback is set.
abbrev pub Covered : Driver → Type 0
Covered t = (asks_scan t.dev.req ≡ false) ⊎ (is_set t.dev.scan_cb ≡ true)

pub Covered-keeps : (t u : Driver) → u.dev.req ≡ t.dev.req → Callback t u → Covered t → Covered u
Covered-keeps t u same k (inl h) = inl (ap asks_scan same ∙ h)
Covered-keeps t u same (inl k) (inr h) = inr k
Covered-keeps t u same (inr k) (inr h) = inr (ap is_set k ∙ h)

Callback-trans : (s t u : Driver) → Callback s t → Callback t u → Callback s u
Callback-trans s t u h (inl k) = inl k
Callback-trans s t u (inl h) (inr k) = inl (ap is_set k ∙ h)
Callback-trans s t u (inr h) (inr k) = inr (k ∙ h)

-- A call that is not counted.
abbrev pub Neutral : Call → Type 0
Neutral c =
    (l : List Call)
    → (locks (c ∷ l) ≡ locks l)
      × (unlocks (c ∷ l) ≡ unlocks l)
      × (submits (c ∷ l) ≡ submits l)
      × (sends (c ∷ l) ≡ sends l)
      × (sent_bytes (c ∷ l) ≡ sent_bytes l)
      × (reads (c ∷ l) ≡ reads l)
      × (writes (c ∷ l) ≡ writes l)
      × (unrefs (c ∷ l) ≡ unrefs l)

-- The calls that handle frames, and the statistics, as they were.
abbrev pub Same : Driver → Driver → Type 0
Same s t =
    (t.dev.stats ≡ s.dev.stats)
    × (sends t.log ≡ sends s.log)
    × (sent_bytes t.log ≡ sent_bytes s.log)
    × (reads t.log ≡ reads s.log)
    × (writes t.log ≡ writes s.log)
    × (unrefs t.log ≡ unrefs s.log)

-- What a program may do: post a request, handle frames, or neither.
pub data Kind : Type 0 where
  quiet frames : Kind
  posts : Request → Kind

-- `o` is the kind of the program.
module _ (o : Kind) where
  -- Either nothing was submitted and the request is the old one, or the request is the one to post,
  -- and has its callback.
  abbrev pub Slot : Driver → Driver → Type 0
  Slot s t =
      ((submits t.log ≡ submits s.log) × (t.dev.req ≡ s.dev.req))
      ⊎ ((submits s.log < submits t.log) × (o ≡ posts t.dev.req) × Covered t)

  -- The frames and what is counted of them are as they were, unless frames are handled.
  abbrev pub Traffic : Driver → Driver → Type 0
  Traffic s t = (o ≡ frames) ⊎ Same s t

  abbrev pub Kept : Driver → Driver → Type 0
  Kept s t = Even s t × Slot s t × Callback s t × Traffic s t

  Traffic-trans : (s t u : Driver) → Traffic s t → Traffic t u → Traffic s u
  Traffic-trans s t u (inl h) k = inl h
  Traffic-trans s t u (inr h) (inl k) = inl k
  Traffic-trans s t u (inr h) (inr k) =
      inr (k.0 ∙ h.0, k.1 ∙ h.1, k.2 ∙ h.2, k.3 ∙ h.3, k.4 ∙ h.4, k.5 ∙ h.5)

  Slot-trans : (s t u : Driver) → Slot s t → Slot t u → Callback t u → Slot s u
  Slot-trans s t u (inl h) (inl k) c = inl (omega (arith, h.0, k.0), k.1 ∙ h.1)
  Slot-trans s t u (inl h) (inr k) c = inr (omega (arith, h.0, k.0), k.1, k.2)
  Slot-trans s t u (inr h) (inl k) c =
      inr (omega (arith, h.0, k.0), h.1 ∙ ap posts (sym (k.1)), Covered-keeps t u (k.1) c (h.2))
  Slot-trans s t u (inr h) (inr k) c = inr (omega (arith, h.0, k.0), k.1, k.2)

  Kept-trans : (s t u : Driver) → Kept s t → Kept t u → Kept s u
  Kept-trans s t u h k = (
    omega (arith, h.0, k.0),
    Slot-trans s t u (h.1) (k.1) (k.2),
    Callback-trans s t u (h.2) (k.2),
    Traffic-trans s t u (h.3) (k.3),
  )

  unfoldable pub Keeps : {A : Type 0} → M Driver A → Type 0
  Keeps m = (s : Driver) → IfReturns (λ a t. Kept s t) (m s)

  pub Keeps-bind :
      {A B : Type 0} (m : M Driver A) (f : A → M Driver B)
      → Keeps m
      → ((a : A) → Keeps (f a))
      → Keeps (m >>= f)
  unfolding Keeps
  Keeps-bind m f h k s =
      IfReturns-bind (λ a t. Kept s t) (λ b t. Kept s t) m f s (h s)
        (λ a t e.
          IfReturns-weaken (λ b u. Kept t u) (λ b u. Kept s u) (f a t) (k a t)
            (λ b u e'. Kept-trans s t u e e'))

  pub Keeps-then :
      {B : Type 0} (m : M Driver (Unit {0})) (k : M Driver B) → Keeps m → Keeps k → Keeps (m >> k)
  Keeps-then m k h h' = Keeps-bind m (λ _. k) h (λ _. h')

  pub Keeps-pure : {A : Type 0} (a : A) → Keeps (pure a)
  unfolding Keeps
  Keeps-pure a s = (refl, inl (refl, refl), inr refl, inr (refl, refl, refl, refl, refl, refl))

  pub Keeps-checked : {A : Type 0} (o : Option A) → Keeps (checked o)
  unfolding Keeps
  Keeps-checked none s = tt
  Keeps-checked (some a) s =
      (refl, inl (refl, refl), inr refl, inr (refl, refl, refl, refl, refl, refl))

  pub Keeps-perform : (c : Call) → Neutral c → Keeps (perform c)
  unfolding Keeps
  Keeps-perform c n s = (
    omega (arith, (n s.log).0, (n s.log).1),
    inl ((n s.log).2, refl),
    inr refl,
    inr (refl, (n s.log).3, (n s.log).4, (n s.log).5, (n s.log).6, (n s.log).7),
  )

  pub Keeps-invoke : (p : Platform) (c : Call) → Neutral c → Keeps (invoke p c)
  unfolding Keeps
  Keeps-invoke p c n s = (
    omega (arith, (n s.log).0, (n s.log).1),
    inl ((n s.log).2, refl),
    inr refl,
    inr (refl, (n s.log).3, (n s.log).4, (n s.log).5, (n s.log).6, (n s.log).7),
  )

  pub Keeps-get :
      {B : Type 0} (f : Driver → M Driver B) → ((s : Driver) → Keeps (f s)) → Keeps (get >>= f)
  unfolding Keeps
  Keeps-get f h s = h s s

  -- A choice.
  pub Keeps-Bool :
      {A : Type 0} (m k : M Driver A) (b : Bool)
      → Keeps m
      → Keeps k
      → Keeps (elim b as (λ x. M Driver A) [ true ↦ m | false ↦ k ])
  Keeps-Bool m k true h h' = h
  Keeps-Bool m k false h h' = h'
