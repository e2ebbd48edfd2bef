-- ===== src/Wake/Tests.antt =====
-- One interrupt, and the poll that serves it.
use zephyr_cyw43_driver.Prelude.{ℕ, suc, ◌≡◌, ◌⊎◌, min, arith, refl, true, false}
use zephyr_cyw43_driver.Wake.{Semaphore, Wake, Happens, Runs, begin, later, waiting}
use zephyr_cyw43_driver.Wake.Served.{IsSemaphore, Runs-served}

-- The count itself, at most 10.
abbrev counter : Semaphore
counter = record {
  State = ℕ;
  new = 0;
  count = λ n. n;
  Gives = λ x y. y ≡ min (suc x) 10;
  Takes = λ x y. x ≡ suc y;
}

counter-IsSemaphore : IsSemaphore counter
counter-IsSemaphore = record { give_lem = λ x y e. omega (arith, e) }

abbrev served : Wake counter
served = record { event_sem = 0; irq = true; transfer = false; point = waiting; due = false }

served_reached : Runs counter true served
served_reached =
    later
      (later
        (later
          (later
            (later (later begin (Happens.interrupt {x = 1} refl refl))
              (Happens.take_event {x = 0} refl refl))
            (Happens.mask_interrupt refl))
          (Happens.enter_poll refl refl))
        (Happens.post_poll_hook refl))
      (Happens.leave_poll refl)

Runs-served_example : (served.due ≡ false) × ((served.irq ≡ true) ⊎ (served.transfer ≡ true))
Runs-served_example = Runs-served counter counter-IsSemaphore served_reached refl refl
