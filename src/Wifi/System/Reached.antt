-- ===== src/Wifi/System/Reached.antt =====
-- What holds of every state that the driver reaches from power-on.
use zephyr_cyw43_driver.Prelude.{
  ℕ, ◌≡◌, inl, inr, arith, refl, ap, ◌∙◌, Bool, Bool-cases, true, false, ◌||◌, if◌then◌else◌, ltb,
  List, [], ◌∷◌, Option, none, some, length-replicate,
}
use mathlib.Core.Path.{subst}
use zephyr_cyw43_driver.Prelude.Fault.{Returns, Returns-bind, Returns-weaken, IfReturns}
use zephyr_cyw43_driver.Prelude.Text.{strlen}
use zephyr_cyw43_driver.Wifi.Platform.{Platform, Config}
use zephyr_cyw43_driver.Wifi.Device.{Driver, Device, Request}
use zephyr_cyw43_driver.Wifi.Counts.{submits, locks, unlocks}
use zephyr_cyw43_driver.Wifi.Balance.{
  quiet, Slot, Callback, Kept, Keeps, Keeps-then, Covered, Covered-keeps, is_set, asks_scan,
}
use zephyr_cyw43_driver.Wifi.Balance.Entries.{
  Entry, enter, kind_of, request_of-kind_of, enter-Keeps,
}
use zephyr_cyw43_driver.Wifi.Safe.{Texts, WellFormed, IsScan, Ready}
use zephyr_cyw43_driver.Wifi.Safe.Entries.{
  Reads, Allowed, is_work, call-WellFormed, enter-WellFormed,
}
use zephyr_cyw43_driver.Wifi.System.{
  System, Event, called, worked, pending, scanned, Permitted, submitted, zero_params, boot, powered,
  Runs,
}

-- What waits in the kernel's queue.
abbrev pub mailbox : System → Option Request
mailbox s = if s.queued then some s.driver.dev.req else none

-- Nothing is known of the request.
abbrev pub Any : Request → Option ℕ → Type 0
Any r o = Unit

pub record Inv (frame_size : ℕ) (es : List Event) (s : System) : Type 0 where
  pub form : WellFormed frame_size Any s.driver.dev
  pub even : locks s.driver.log ≡ unlocks s.driver.log
  pub mail : mailbox s ≡ pending es
  pub covered : s.queued ≡ true → Covered s.driver
  pub set : scanned es ≡ true → is_set s.driver.dev.scan_cb ≡ true

Texts-zero_params : Texts zero_params
unfolding strlen
Texts-zero_params = record {
  ssid_len = 0;
  psk_len = 0;
  ssid = refl;
  psk = refl;
  ssid_room = refl;
  psk_room = refl;
}

-- What a program that ended kept.
pub enter-Kept :
    (p : Platform) (c : Config) (e : Entry) (s t : Driver)
    → enter p c e s ≡ some (tt, t)
    → Kept (kind_of e) s t
unfolding Keeps
enter-Kept p c e s t runs =
    subst (IfReturns (λ _ u. Kept (kind_of e) s u)) runs (enter-Keeps p c e s)

-- What is permitted is allowed where a scan's callback is set once a scan was handed over.
Allowed-Permitted :
    (frame_size : ℕ) (es : List Event) (d : Device) (e : Entry)
    → (scanned es ≡ true → is_set d.scan_cb ≡ true)
    → Permitted frame_size es e
    → (is_work e ≡ false) × Allowed frame_size e d
Allowed-Permitted n es d Entry.at_init h k = absurd k
Allowed-Permitted n es d Entry.at_iface_init h k = absurd k
Allowed-Permitted n es d Entry.at_work h k = absurd k
Allowed-Permitted n es d Entry.at_disconnect h k = (refl, tt)
Allowed-Permitted n es d Entry.at_ap_disable h k = (refl, tt)
Allowed-Permitted n es d Entry.at_iface_status h k = (refl, tt)
Allowed-Permitted n es d Entry.at_pm_status h k = (refl, tt)
Allowed-Permitted n es d (Entry.at_scan active cb) h k = (refl, tt)
Allowed-Permitted n es d (Entry.at_connect params) h k = (refl, k)
Allowed-Permitted n es d (Entry.at_ap_enable params) h k = (refl, k)
Allowed-Permitted n es d (Entry.at_set_pm is_state enabled) h k = (refl, tt)
Allowed-Permitted n es d (Entry.at_send len) h k = (refl, k)
Allowed-Permitted n es d (Entry.at_scan_result none) h k = (refl, tt)
Allowed-Permitted n es d (Entry.at_scan_result (some r)) h k =
    let set : is_set d.scan_cb ≡ true = h (k.1) in (refl, (k.0, λ null. ground (arith, set, null)))
Allowed-Permitted n es d (Entry.at_ethernet buf) h k = (refl, tt)

is_set-Callback :
    (s t : Driver) → Callback s t → is_set s.dev.scan_cb ≡ true → is_set t.dev.scan_cb ≡ true
is_set-Callback s t (inl h) k = h
is_set-Callback s t (inr h) k = ap is_set h ∙ k

-- What a call makes of the queue, as the request slot stands to it.
module _ (e : Entry) (es : List Event) (s : System) (t : Driver) where
  record Queued (b : Bool) : Type 0 where
    mail : mailbox (record { driver = t; queued = s.queued || b }) ≡ pending (called e b ∷ es)
    covered : s.queued || b ≡ true → Covered t

  Queued-call :
      mailbox s ≡ pending es
      → (s.queued ≡ true → Covered s.driver)
      → Kept (kind_of e) s.driver t
      → Queued (submitted s.driver t)
  Queued-call m c (_, inl (count, req), cb, _) =
      let none_new : ltb (submits s.driver.log) (submits t.log) ≡ false = ground (arith, count) in
      rw none_new (record {
        mail = ground (arith, m, req);
        covered = λ h. Covered-keeps s.driver t req cb (c (ground (arith, h)));
      })
  Queued-call m c (_, inr (count, asks, set), cb, _) =
      let new : ltb (submits s.driver.log) (submits t.log) ≡ true = ground (arith, count) in
      rw new
        (record { mail = ground (arith, request_of-kind_of e t.dev.req asks); covered = λ h. set })

asks_scan-IsScan : (r : Request) → IsScan r → asks_scan r ≡ true
asks_scan-IsScan Request.active_scan h = refl
asks_scan-IsScan Request.passive_scan h = refl
asks_scan-IsScan Request.connect h = absurd h
asks_scan-IsScan Request.disconnect h = absurd h
asks_scan-IsScan Request.enable_ap h = absurd h
asks_scan-IsScan Request.disable_ap h = absurd h
asks_scan-IsScan Request.iface_status h = absurd h
asks_scan-IsScan Request.set_pm h = absurd h
asks_scan-IsScan Request.idle h = absurd h

is_set-Covered : (t : Driver) → Covered t → asks_scan t.dev.req ≡ true → is_set t.dev.scan_cb ≡ true
is_set-Covered t (inl h) k = absurd (ground (arith, h, k))
is_set-Covered t (inr h) k = h

Ready-Covered : (t : Driver) → Covered t → Ready t.dev.req t.dev.scan_cb
Ready-Covered t h is_scan null =
    let set : is_set t.dev.scan_cb ≡ true =
      is_set-Covered t h (asks_scan-IsScan t.dev.req is_scan) in
    ground (arith, set, null)

module _ (p : Platform) (c : Config) (frame_size : ℕ) where
  boot-Keeps : Keeps quiet (boot p c)
  unfolding boot
  boot-Keeps =
      Keeps-then quiet _ _ (enter-Keeps p c Entry.at_init) (enter-Keeps p c Entry.at_iface_init)

  pub boot-Kept :
      (t : Driver)
      → boot p c (powered frame_size) ≡ some (tt, t)
      → Kept quiet (powered frame_size) t
  unfolding Keeps
  boot-Kept t runs =
      subst (IfReturns (λ _ u. Kept quiet (powered frame_size) u)) runs
        (boot-Keeps (powered frame_size))

  -- The two entries that the kernel calls first.
  pub boot-WellFormed :
      Reads p → Returns (λ _ t. WellFormed frame_size Any t.dev) (boot p c (powered frame_size))
  unfolding boot
  boot-WellFormed reads =
      Returns-bind (λ _ t. WellFormed frame_size Any t.dev) (λ _ t. WellFormed frame_size Any t.dev)
        (enter p c Entry.at_init) (λ _. enter p c Entry.at_iface_init) (powered frame_size)
        (call-WellFormed p c frame_size Any (λ r o h. tt) reads Entry.at_init (powered frame_size)
          refl tt
          (record {
            station = Texts-zero_params;
            access_point = Texts-zero_params;
            frame_room = length-replicate frame_size 0;
            pending = tt;
          }))
        (λ _ t w.
          call-WellFormed p c frame_size Any (λ r o h. tt) reads Entry.at_iface_init t refl tt w)

  Inv-boot :
      (t : Driver)
      → Reads p
      → boot p c (powered frame_size) ≡ some (tt, t)
      → Inv frame_size [] (record { driver = t; queued = false })
  Inv-boot t reads runs =
      let k : Kept quiet (powered frame_size) t = boot-Kept t runs in
      record {
        form =
            subst (Returns (λ _ u. WellFormed frame_size Any u.dev)) runs (boot-WellFormed reads);
        even = omega (arith, k.0);
        mail = refl;
        covered = λ h. absurd (ground (arith, h));
        set = λ h. absurd (ground (arith, h));
      }

  -- A permitted call returns from every state that the invariant holds of.
  pub call-Returns :
      (es : List Event) (s : System) (e : Entry)
      → Reads p
      → Inv frame_size es s
      → Permitted frame_size es e
      → Returns (λ _ t. WellFormed frame_size Any t.dev) (enter p c e s.driver)
  call-Returns es s e reads i h =
      let a = Allowed-Permitted frame_size es s.driver.dev e (i.set) h in
      call-WellFormed p c frame_size Any (λ r o k. tt) reads e s.driver (a.0) (a.1) (i.form)

  pub Inv-call :
      (es : List Event) (s : System) (e : Entry) (t : Driver)
      → Reads p
      → Inv frame_size es s
      → Permitted frame_size es e
      → enter p c e s.driver ≡ some (tt, t)
      → Inv frame_size
          (called e (submitted s.driver t) ∷ es)
          (record { driver = t; queued = s.queued || submitted s.driver t })
  Inv-call es s e t reads i h runs =
      let k : Kept (kind_of e) s.driver t = enter-Kept p c e s.driver t runs in
      let q : Queued e es s t (submitted s.driver t) =
        Queued-call e es s t (i.mail) (i.covered) k in
      record {
        form =
            subst (Returns (λ _ u. WellFormed frame_size Any u.dev)) runs
              (call-Returns es s e reads i h);
        even = omega (arith, k.0, i.even);
        mail = q.mail;
        covered = q.covered;
        set = λ old. is_set-Callback s.driver t (k.2) (i.set old);
      }

  -- A run of the work item returns where the work item is queued.
  pub work-Returns :
      (es : List Event) (s : System)
      → Reads p
      → Inv frame_size es s
      → s.queued ≡ true
      → Returns (λ _ t. WellFormed frame_size Any t.dev) (enter p c Entry.at_work s.driver)
  work-Returns es s reads i h =
      let w : WellFormed frame_size Ready s.driver.dev = record {
        station = i.form.station;
        access_point = i.form.access_point;
        frame_room = i.form.frame_room;
        pending = Ready-Covered s.driver (i.covered h);
      } in
      Returns-weaken (λ _ t. WellFormed frame_size Ready t.dev)
        (λ _ t. WellFormed frame_size Any t.dev) (enter p c Entry.at_work s.driver)
        (enter-WellFormed p c frame_size reads Entry.at_work s.driver tt w)
        (λ _ t v. record {
          station = v.station;
          access_point = v.access_point;
          frame_room = v.frame_room;
          pending = tt;
        })

  quiet-Slot : (s t : Driver) → Slot quiet s t → (submitted s t ≡ false) × (t.dev.req ≡ s.dev.req)
  quiet-Slot s t (inl (count, req)) = (ground (arith, count), req)
  quiet-Slot s t (inr (count, posts, set)) = absurd (ground (arith, posts))

  set-work :
      (es : List Event) (s : System)
      → Inv frame_size es s
      → s.queued ≡ true
      → asks_scan s.driver.dev.req || scanned es ≡ true
      → is_set s.driver.dev.scan_cb ≡ true
  set-work es s i h old = elim (Bool-cases (asks_scan s.driver.dev.req)) [
    | inl asks ↦ is_set-Covered s.driver (i.covered h) asks
    | inr other ↦ i.set (ground (arith, old, other))
  ]

  -- The work item submits nothing.
  pub submitted-work :
      (s t : Driver) → enter p c Entry.at_work s ≡ some (tt, t) → submitted s t ≡ false
  submitted-work s t runs = (quiet-Slot s t (enter-Kept p c Entry.at_work s t runs).1).0

  Inv-work :
      (es : List Event) (s : System) (t : Driver)
      → Reads p
      → Inv frame_size es s
      → s.queued ≡ true
      → enter p c Entry.at_work s.driver ≡ some (tt, t)
      → Inv frame_size
          (worked s.driver.dev.req ∷ es)
          (record { driver = t; queued = submitted s.driver t })
  Inv-work es s t reads i h runs =
      let k : Kept quiet s.driver t = enter-Kept p c Entry.at_work s.driver t runs in
      let quiet : submitted s.driver t ≡ false = submitted-work s.driver t runs in
      rw quiet (record {
        form =
            subst (Returns (λ _ u. WellFormed frame_size Any u.dev)) runs
              (work-Returns es s reads i h);
        even = omega (arith, k.0, i.even);
        mail = refl;
        covered = λ q. absurd (ground (arith, q));
        set = λ old. is_set-Callback s.driver t (k.2) (set-work es s i h old);
      })

  pub Inv-Runs :
      (es : List Event) (s : System) → Reads p → Runs p c frame_size es s → Inv frame_size es s
  Inv-Runs es s reads (Runs.start runs) = Inv-boot _ reads runs
  Inv-Runs es s reads (Runs.call r e h runs) = Inv-call _ _ e _ reads (Inv-Runs _ _ reads r) h runs
  Inv-Runs es s reads (Runs.work r h runs) = Inv-work _ _ _ reads (Inv-Runs _ _ reads r) h runs
