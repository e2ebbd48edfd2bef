-- ===== src/Wake.antt =====
-- How the radio wakes the driver: the interrupt's callback, the polling thread and the switch of
-- the interrupt in drivers/wifi/zephyr_cyw43/src/zephyr_cyw43_drv.c, whose steps interleave with
-- each other and with the transfers of other threads.
pub mod Served
mod Tests
use zephyr_cyw43_driver.Prelude.{ℕ, ◌<◌, ◌≡◌, Bool, true, false}

-- Zephyr's `k_sem`: its states, its count, and the returns of `k_sem_give` and of `k_sem_take`.
pub record Semaphore : Type 1 where
  pub State : Type 0
  pub new : State  -- behind `k_sem_init(_, 0, 10)`
  pub count : State → ℕ
  pub Gives : State → State → Type 0
  pub Takes : State → State → Type 0

-- Where `zephyr_cyw43_event_poll_thread` stands in its loop.
pub data PollPoint : Type 0 where
  waiting : PollPoint  -- in `k_sem_take`
  woken : PollPoint  -- it returned, with the semaphore or after 5 seconds
  masked : PollPoint  -- the interrupt is disabled
  polling : PollPoint  -- has the lock, in `cyw43_poll`
  hooked : PollPoint  -- behind the hook that ends `cyw43_poll`

-- `irq` is the last argument of `cyw43_set_irq_enabled` or of the bus's own switch. `transfer`
-- says whether a transfer is on the wire, which only one thread at a time can have. `due` is no
-- variable of the source: an interrupt came since `cyw43_poll` was last entered.
pub record Wake (k : Semaphore) : Type 0 where
  pub event_sem : k.State
  pub irq : Bool
  pub transfer : Bool
  pub point : PollPoint
  pub due : Bool

-- One step; `poll_set` says whether the library has set the pointer `cyw43_poll`.
pub data Happens (k : Semaphore) (poll_set : Bool) (s : Wake k) : Wake k → Type 0 where
  -- `zephyr_cyw43_isr`, which no thread interrupts
  interrupt :
      {x : k.State}
      → s.irq ≡ true
      → k.Gives s.event_sem x
      → Happens k poll_set s (record s { event_sem = x; irq = false; due = true })
  take_event :
      {x : k.State}
      → s.point ≡ waiting
      → k.Takes s.event_sem x
      → Happens k poll_set s (record s { event_sem = x; point = woken })
  time_out : s.point ≡ waiting → Happens k poll_set s (record s { point = woken })
  mask_interrupt : s.point ≡ woken → Happens k poll_set s (record s { irq = false; point = masked })
  enter_poll :
      s.point ≡ masked
      → poll_set ≡ true
      → Happens k poll_set s (record s { point = polling; due = false })
  skip_poll :
      s.point ≡ masked → poll_set ≡ false → Happens k poll_set s (record s { point = waiting })
  -- `cyw43_post_poll_hook`, which the library calls at the end of `cyw43_poll`
  post_poll_hook :
      s.point ≡ polling → Happens k poll_set s (record s { irq = true; point = hooked })
  leave_poll : s.point ≡ hooked → Happens k poll_set s (record s { point = waiting })
  -- A transfer, of the polling thread or of another, disables the interrupt and enables it again.
  begin_transfer :
      s.transfer ≡ false → Happens k poll_set s (record s { irq = false; transfer = true })
  end_transfer :
      s.transfer ≡ true → Happens k poll_set s (record s { irq = true; transfer = false })

-- As the thread starts, behind `zephyr_cyw43_register_cb`.
abbrev pub armed : (k : Semaphore) → Wake k
armed k = record { event_sem = k.new; irq = true; transfer = false; point = waiting; due = false }

pub data Runs (k : Semaphore) (poll_set : Bool) : Wake k → Type 0 where
  begin : Runs k poll_set (armed k)
  later : {s t : Wake k} → Runs k poll_set s → Happens k poll_set s t → Runs k poll_set t
