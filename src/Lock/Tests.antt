-- ===== src/Lock/Tests.antt =====
-- A run of the lock over one concrete mutex: the thread 4 takes it.
use zephyr_cyw43_driver.Prelude.{
  ℕ, suc, ◌≡◌, ◌≢◌, ◌⊎◌, inl, inr, Bool-cases, ◌==◌, arith, refl, true, Option, none, some, [], ◌∷◌,
}
use zephyr_cyw43_driver.Prelude.Int.{pos}
use zephyr_cyw43_driver.Lock.{Mutex, Move, System, Reach, begin, later, start, step, depth_of}
use zephyr_cyw43_driver.Lock.Family.{update}
use zephyr_cyw43_driver.Lock.{Pc}
use zephyr_cyw43_driver.Lock.Invariant.{IsMutex}
use zephyr_cyw43_driver.Lock.Progress.{is_out, Reach-free}
use zephyr_cyw43_driver.Lock.Recursive.{Recursive, Serves, took}
use zephyr_cyw43_driver.Lock.Refine.{Matches, Traced, at_start, moved, Traced-Serves}
use zephyr_cyw43_driver.Lock.Exclusion.{Reach-exclusive, Reach-depth}

abbrev plain : Mutex
plain = record {
  State = Option (ℕ × ℕ);
  new = none;
  holder = λ x. x;
  Locks = λ i x y.
      ((x ≡ none) × (y ≡ some (i, 1))) ⊎ ((d : ℕ) × (x ≡ some (i, d)) × (y ≡ some (i, suc d)));
  Unlocks = λ i x y. (x ≡ some (i, 1)) × (y ≡ none);
}

plain-IsMutex : IsMutex plain
plain-IsMutex = record { new_free = refl; lock_lem = λ i x y l. l; unlock_lem = λ i x y u h. u.1 }

abbrev inside : System plain
inside = record {
  fields = record { mutex = some (4, 1); mutex_owner = pos 4; mutex_depth = 1 };
  pc =
      update
        (update (update (update (λ _. Pc.running 0) 4 (Pc.waiting 0)) 4 (Pc.locked 0)) 4
          (Pc.owned 0))
        4 (Pc.running 1);
}

inside_reached : Reach plain inside
inside_reached =
    later
      (later
        (later (later begin (step 4 (omega arith) (Move.find_other (ground arith))))
          (step 4 (omega arith) (Move.take_mutex (inl (refl, refl)))))
        (step 4 (omega arith) Move.set_owner))
      (step 4 (omega arith) Move.set_depth)

Reach-exclusive_example : ◌≡◌ {A = ℕ} 4 4
Reach-exclusive_example =
    Reach-exclusive plain plain-IsMutex 4 4 inside_reached (omega arith) (omega arith) (omega arith)
      (omega arith)

Reach-depth_example :
    (plain.holder inside.fields.mutex ≡ some (4, 1))
    × (inside.fields.mutex_owner ≡ pos 4)
    × (inside.fields.mutex_depth ≡ depth_of (inside.pc 4))
Reach-depth_example = Reach-depth plain plain-IsMutex 4 inside_reached (omega arith) (omega arith)

-- The thread 4 is about to call `k_mutex_lock`.
abbrev arrived : System plain
arrived = let s : System plain = start plain in record s { pc = update s.pc 4 (Pc.waiting 0) }

arrived-is_out : (i : ℕ) → i ≢ 0 → is_out (arrived.pc i) ≡ true
arrived-is_out i nz = elim (Bool-cases (4 == i)) [ inl e ↦ rw (e) refl | inr e ↦ rw (e) refl ]

Reach-free_example : plain.holder arrived.fields.mutex ≡ none
Reach-free_example =
    Reach-free plain plain-IsMutex
      (later begin (step 4 (omega arith) (Move.find_other (ground arith)))) arrived-is_out

-- The thread 4 takes the lock once more.
abbrev nested : System plain
nested = record {
  fields = record { mutex = some (4, 1); mutex_owner = pos 4; mutex_depth = 2 };
  pc = update (update (update inside.pc 4 (Pc.nesting 1)) 4 (Pc.raising 1 1)) 4 (Pc.running 2);
}

inside_traced : Traced plain (took 4 ∷ []) inside
inside_traced =
    moved 4
      (moved 4
        (moved 4 (moved 4 at_start (omega arith) (Move.find_other (ground arith))) (omega arith)
          (Move.take_mutex (inl (refl, refl))))
        (omega arith) Move.set_owner)
      (omega arith) Move.set_depth

nested_traced : Traced plain (took 4 ∷ took 4 ∷ []) nested
nested_traced =
    moved 4
      (moved 4 (moved 4 inside_traced (omega arith) (Move.find_self (omega arith) refl))
        (omega arith) Move.read_depth)
      (omega arith) Move.raise_depth

Traced-Serves_example : (a : Recursive) × Serves (took 4 ∷ took 4 ∷ []) a × Matches nested a
Traced-Serves_example = Traced-Serves plain plain-IsMutex nested_traced
