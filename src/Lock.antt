-- ===== src/Lock.antt =====
-- The nested lock of zephyr_cyw43_drv.h, `zephyr_cyw43_lock` and `zephyr_cyw43_unlock`, taken by
-- any number of threads at once. Every access to shared memory and every call of the kernel is a
-- step of its own, so the steps of the threads interleave in any order.
pub mod Family
pub mod Invariant
pub mod Exclusion
pub mod Progress
pub mod Recursive
pub mod Refine
mod Tests
use zephyr_cyw43_driver.Prelude.{
  ℕ, zero, suc, ◌+◌, ◌-◌, ◌%◌, ◌^◌, ◌<◌, ◌≡◌, ◌≢◌, Option, none, some,
}
use zephyr_cyw43_driver.Prelude.Int.{ℤ, pos, negsuc}
use zephyr_cyw43_driver.Lock.Family.{update}

-- Zephyr's `k_mutex`: its states, who holds it and how often, and the returns of
-- `k_mutex_lock(_, K_FOREVER)` and `k_mutex_unlock`, called by a thread.
pub record Mutex : Type 1 where
  pub State : Type 0
  pub new : State  -- behind `k_mutex_init`
  pub holder : State → Option (ℕ × ℕ)
  pub Locks : ℕ → State → State → Type 0
  pub Unlocks : ℕ → State → State → Type 0

-- The three fields of the device. A thread is its address, which `_current` gives, never 0.
pub record Fields (k : Mutex) : Type 0 where
  pub mutex : k.State
  pub mutex_owner : ℤ
  pub mutex_depth : ℕ

-- Where a thread stands; `n` is how many of its calls of lock have returned without a matching
-- call of unlock.
pub data Pc : Type 0 where
  running : (n : ℕ) → Pc
  waiting : (n : ℕ) → Pc  -- another thread was the owner: about to call `k_mutex_lock`
  locked : (n : ℕ) → Pc  -- `k_mutex_lock` returned
  owned : (n : ℕ) → Pc  -- the owner is set
  nesting : (n : ℕ) → Pc  -- it was the owner itself
  raising : (n depth : ℕ) → Pc  -- has read the depth, about to add one
  lowering : (n depth : ℕ) → Pc  -- in unlock, has read the depth
  clearing : (n : ℕ) → Pc  -- the depth is 0
  releasing : (n : ℕ) → Pc  -- the owner is reset

-- How many calls of lock the thread has not undone.
abbrev pub depth_of : Pc → ℕ
depth_of (Pc.running n) = n
depth_of (Pc.waiting n) = n
depth_of (Pc.locked n) = n
depth_of (Pc.owned n) = n
depth_of (Pc.nesting n) = n
depth_of (Pc.raising n d) = n
depth_of (Pc.lowering n d) = n
depth_of (Pc.clearing n) = n
depth_of (Pc.releasing n) = n

-- `--mutex_depth`, of an unsigned int
abbrev pub lowered : ℕ → ℕ
lowered d = (d + (2 ^ 32 - 1)) % 2 ^ 32

-- One step of the thread `i`.
pub data Move (k : Mutex) (i : ℕ) (m : Fields k) : Pc → Fields k → Pc → Type 0 where
  find_other : {n : ℕ} → m.mutex_owner ≢ pos i → Move k i m (running n) m (waiting n)
  -- Each nested call stands in a frame of the stack: a thread nests less than 2 ^ 32 deep.
  find_self :
      {n : ℕ} → suc n < 2 ^ 32 → m.mutex_owner ≡ pos i → Move k i m (running n) m (nesting n)
  take_mutex :
      {n : ℕ} {x : k.State}
      → k.Locks i m.mutex x
      → Move k i m (waiting n) (record m { mutex = x }) (locked n)
  set_owner : {n : ℕ} → Move k i m (locked n) (record m { mutex_owner = pos i }) (owned n)
  set_depth : {n : ℕ} → Move k i m (owned n) (record m { mutex_depth = 1 }) (running (suc n))
  read_depth : {n : ℕ} → Move k i m (nesting n) m (raising n m.mutex_depth)
  raise_depth :
      {n d : ℕ}
      → Move k i m (raising n d) (record m { mutex_depth = suc d % 2 ^ 32 }) (running (suc n))
  -- A thread calls unlock only behind a call of lock of its own.
  unlock : {n : ℕ} → Move k i m (running (suc n)) m (lowering (suc n) m.mutex_depth)
  lower_depth :
      {n d : ℕ}
      → lowered d ≢ 0
      → Move k i m (lowering (suc n) d) (record m { mutex_depth = lowered d }) (running n)
  clear_depth :
      {n d : ℕ}
      → lowered d ≡ 0
      → Move k i m (lowering (suc n) d) (record m { mutex_depth = lowered d }) (clearing n)
  reset_owner :
      {n : ℕ} → Move k i m (clearing n) (record m { mutex_owner = negsuc 0 }) (releasing n)
  release_mutex :
      {n : ℕ} {x : k.State}
      → k.Unlocks i m.mutex x
      → Move k i m (releasing n) (record m { mutex = x }) (running n)

pub record System (k : Mutex) : Type 0 where
  pub fields : Fields k
  pub pc : ℕ → Pc

pub data Step (k : Mutex) (s : System k) : System k → Type 0 where
  step :
      (i : ℕ) {m : Fields k} {c : Pc}
      → i ≢ 0
      → Move k i s.fields (s.pc i) m c
      → Step k s (record { fields = m; pc = update s.pc i c })

-- The device is static: its owner and depth start as 0.
abbrev pub start : (k : Mutex) → System k
start k = record {
  fields = record { mutex = k.new; mutex_owner = pos 0; mutex_depth = 0 };
  pc = λ _. running 0;
}

pub data Reach (k : Mutex) : System k → Type 0 where
  begin : Reach k (start k)
  later : {s t : System k} → Reach k s → Step k s t → Reach k t
