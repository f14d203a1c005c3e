-- ===== src/SpinLock/Tests.antt =====
-- Runs of the spin lock, and its theorems at a concrete state.
use pans.Base.{◌≡◌, refl, ◌⊎◌, ℕ, false, true}
use pans.SpinLock.{
  System, inside, acquiring, outside, Step, turn, call_lock, acquire, Reach, start, later, initial,
}
use pans.SpinLock.Exclusion.{after, mutual_exclusion, never_lost}

-- Thread 3 has called `lock`, and then got in.
abbrev waiting : System
waiting = after initial 3 false acquiring

abbrev locked : System
locked = after waiting 3 true inside

waiting-Reach : Reach waiting
waiting-Reach = later start (turn 3 call_lock)

locked-Reach : Reach locked
locked-Reach = later waiting-Reach (turn 3 acquire)

mutual_exclusion_example : ◌≡◌ {A = ℕ} 3 3
mutual_exclusion_example = mutual_exclusion locked 3 3 locked-Reach refl refl

never_lost_example :
    ((j : ℕ) × (waiting.pc j ≡ inside) × Step waiting (after waiting j false outside))
    ⊎ ((waiting.flag ≡ false) × Step waiting (after waiting 3 true inside))
never_lost_example = never_lost waiting 3 waiting-Reach refl
