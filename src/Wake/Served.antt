-- ===== src/Wake/Served.antt =====
-- No wake-up is lost.
use zephyr_cyw43_driver.Prelude.{◌<◌, ◌≡◌, ◌⊎◌, inl, arith, refl, true, false}
use zephyr_cyw43_driver.Wake.{
  Semaphore, Wake, Happens, Runs, begin, later, waiting, woken, masked, hooked,
}

-- What the kernel documents of `k_sem_give`: the count is not 0 behind it.
pub record IsSemaphore (k : Semaphore) : Type 0 where
  pub give_lem : (x y : k.State) → k.Gives x y → 0 < k.count y

module _ (k : Semaphore) (ok : IsSemaphore k) where
  -- Where the thread waits, or is about to, the interrupt is enabled, or is disabled by a transfer
  -- that will enable it, or is counted; and an interrupt that no poll has seen is counted, or the
  -- thread is on its way to the poll.
  abbrev Awake : Wake k → Type 0
  Awake s =
      ((s.point ≡ waiting) ⊎ (s.point ≡ hooked)
        → (s.irq ≡ true) ⊎ (s.transfer ≡ true) ⊎ (0 < k.count s.event_sem))
      × (s.due ≡ true → (0 < k.count s.event_sem) ⊎ (s.point ≡ woken) ⊎ (s.point ≡ masked))

  Happens-Awake : {s t : Wake k} → Awake s → Happens k true s t → Awake t
  Happens-Awake {s} h (Happens.interrupt {x = x} e g) = ground (arith, ok.give_lem s.event_sem x g)
  Happens-Awake h (Happens.take_event e t) = ground arith
  Happens-Awake h (Happens.time_out e) = ground arith
  Happens-Awake h (Happens.mask_interrupt e) = ground arith
  Happens-Awake h (Happens.enter_poll e set) = ground arith
  Happens-Awake h (Happens.skip_poll e set) = ground arith
  Happens-Awake h (Happens.post_poll_hook e) = ground arith
  Happens-Awake h (Happens.leave_poll e) = ground arith
  Happens-Awake h (Happens.begin_transfer e) = ground arith
  Happens-Awake h (Happens.end_transfer e) = ground arith

  Runs-Awake : {s : Wake k} → Runs k true s → Awake s
  Runs-Awake begin = (λ e. inl refl, λ e. ground arith)
  Runs-Awake (later r h) = Happens-Awake (Runs-Awake r) h

  -- Where the library has set `cyw43_poll`, whatever the interleaving: when the polling thread waits
  -- on an empty semaphore, every interrupt that came was followed by a call of `cyw43_poll`, and
  -- the next one is not missed, since the interrupt is enabled, or a transfer is on the wire, whose
  -- end enables it.
  pub Runs-served :
      {s : Wake k}
      → Runs k true s
      → s.point ≡ waiting
      → k.count s.event_sem ≡ 0
      → (s.due ≡ false) × ((s.irq ≡ true) ⊎ (s.transfer ≡ true))
  Runs-served r at empty = ground (arith, Runs-Awake r)
