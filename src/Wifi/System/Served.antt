-- ===== src/Wifi/System/Served.antt =====
-- The calls and the work item, from power-on on: no run is stuck, and every accepted request is
-- served unless a later one takes its place.
use zephyr_cyw43_driver.Prelude.{ℕ, ◌≡◌, refl, sym, ◌∙◌, arith, true, false, List, [], ◌∷◌, some}
use mathlib.Core.Path.{subst}
use zephyr_cyw43_driver.Prelude.Fault.{Returns-runs}
use zephyr_cyw43_driver.Wifi.Platform.{Platform, Config}
use zephyr_cyw43_driver.Wifi.Device.{Driver, Request}
use zephyr_cyw43_driver.Wifi.Counts.{locks, unlocks}
use zephyr_cyw43_driver.Wifi.Balance.Entries.{Entry, enter}
use zephyr_cyw43_driver.Wifi.Safe.Entries.{Reads}
use zephyr_cyw43_driver.Wifi.Work.{serve, request_work}
use zephyr_cyw43_driver.Wifi.System.{
  System, Event, called, worked, pending, Permitted, submitted, powered, boot, Runs,
}
use zephyr_cyw43_driver.Wifi.System.Reached.{
  Inv, mailbox, Inv-Runs, boot-WellFormed, call-Returns, work-Returns, Inv-call, submitted-work,
}

-- Each run of the work item found the request that waited.
abbrev pub Honest : List Event → Type 0
Honest [] = Unit
Honest (called e accepted ∷ es) = Honest es
Honest (worked r ∷ es) = (pending es ≡ some r) × Honest es

module _ (p : Platform) (c : Config) (frame_size : ℕ) (reads : Reads p) where
  -- The driver starts from its static device, and from every state that it reaches, each permitted
  -- call ends: without an access outside an object or through a null pointer, and with the lock
  -- released as often as it was taken since power-on. The network stack is to copy at most as many
  -- bytes of a packet as it is asked for.
  pub Runs-ends :
      (es : List Event) (s : System) (e : Entry)
      → Runs p c frame_size es s
      → Permitted frame_size es e
      → ((t : Driver) × (boot p c (powered frame_size) ≡ some (tt, t)))
        × (t : Driver) × (enter p c e s.driver ≡ some (tt, t))
        × (locks t.log ≡ unlocks t.log)
  Runs-ends es s e r h =
      let i : Inv frame_size es s = Inv-Runs p c frame_size es s reads r in
      let (t, runs) = Returns-runs _ _ (call-Returns p c frame_size es s e reads i h) in
      (
        Returns-runs _ _ (boot-WellFormed p c frame_size reads),
        t,
        runs,
        (Inv-call p c frame_size es s e t reads i h runs).even,
      )

  mailbox-queued :
      (s : System) (r : Request) → mailbox s ≡ some r → (s.queued ≡ true) × (s.driver.dev.req ≡ r)
  mailbox-queued s r h = ground arith

  queued-mailbox : (s : System) → s.queued ≡ true → mailbox s ≡ some s.driver.dev.req
  queued-mailbox s h = rw h refl

  Runs-Honest : (es : List Event) (s : System) → Runs p c frame_size es s → Honest es
  Runs-Honest es s (Runs.start runs) = tt
  Runs-Honest es s (Runs.call r e h runs) = Runs-Honest _ _ r
  Runs-Honest es s (Runs.work {es = es'} {s = s'} r h runs) =
      (sym (Inv-Runs p c frame_size es' s' reads r).mail ∙ queued-mailbox s' h, Runs-Honest _ _ r)

  -- Whatever the calls and runs since power-on, the device and the kernel's queue implement a
  -- mailbox of one request: what waits there is the request of the last call accepted since the
  -- work item last ran, and each run of the work item was of the request that waited.
  pub Runs-mailbox :
      (es : List Event) (s : System)
      → Runs p c frame_size es s
      → (mailbox s ≡ pending es) × Honest es
  Runs-mailbox es s r = ((Inv-Runs p c frame_size es s reads r).mail, Runs-Honest es s r)

  -- A request that waits can be served at once: the work item runs on it, ends, and nothing waits
  -- any more.
  pub request_work-Runs :
      (es : List Event) (s : System) (r : Request)
      → Runs p c frame_size es s
      → pending es ≡ some r
      → (t : Driver) × (request_work p c s.driver ≡ some (tt, t))
        × (serve p c r s.driver ≡ some (tt, t))
        × Runs p c frame_size (worked r ∷ es) (record { driver = t; queued = false })
  unfolding enter request_work
  request_work-Runs es s r run waits =
      let i : Inv frame_size es s = Inv-Runs p c frame_size es s reads run in
      let (queued, same) = mailbox-queued s r (i.mail ∙ waits) in
      let (t, ends) = Returns-runs _ _ (work-Returns p c frame_size es s reads i queued) in
      let quiet : submitted s.driver t ≡ false = submitted-work p c frame_size s.driver t ends in
      (
        t,
        ends,
        subst (λ q. serve p c q s.driver ≡ some (tt, t)) same ends,
        subst (λ b. Runs p c frame_size (worked r ∷ es) (record { driver = t; queued = b })) quiet
            (subst
              (λ q.
                Runs p c frame_size (worked q ∷ es)
                  (record { driver = t; queued = submitted s.driver t }))
              same (Runs.work run queued ends)),
      )
