-- ===== src/SpinLock.antt =====
-- `SpinLock` of pans/include/pans/mutex.h, used by any number of threads: each step of a thread is
-- one access to the atomic flag, and the threads' steps come in any order.
pub mod Exclusion
mod Tests
use pans.Base.{ℕ, Bool, true, false, not, ◌≡◌, ◌==◌, if◌then◌else◌}

-- `std::atomic_flag::test_and_set`: the flag afterwards, and what it was.
abbrev pub test_and_set : Bool → Bool × Bool
test_and_set flag = (true, flag)

-- `try_lock`: the flag afterwards, and the result.
abbrev pub try_lock : Bool → Bool × Bool
try_lock flag = let (after, was) = test_and_set flag in (after, not was)

-- `unlock`: `clear`.
abbrev pub unlock : Bool → Bool
unlock flag = false

-- Where a thread stands: outside, before the `test_and_set` of `lock`, in the inner loop of `lock`,
-- or between the return of a successful `lock` or `try_lock` and its `unlock`.
pub data Pc : Type 0 where
  outside : Pc
  acquiring : Pc
  spinning : Pc
  inside : Pc

-- Where `lock` goes after `test_and_set`, by what that gave: out of the loop, or into the inner one.
abbrev pub after_test_and_set : Bool → Pc
after_test_and_set true = spinning
after_test_and_set false = inside

-- Where the inner loop goes after `test`.
abbrev pub after_test : Bool → Pc
after_test true = spinning
after_test false = acquiring

-- Where a thread is after `try_lock`.
abbrev pub after_try_lock : Bool → Pc
after_try_lock true = inside
after_try_lock false = outside

-- One step of a thread, at the flag and its place, to the flag and the place afterwards. A thread
-- unlocks only what it has locked.
pub data Move (flag : Bool) : Pc → Bool → Pc → Type 0 where
  call_lock : Move flag outside flag acquiring
  acquire : Move flag acquiring (test_and_set flag).0 (after_test_and_set (test_and_set flag).1)
  spin : Move flag spinning flag (after_test flag)
  call_try_lock : Move flag outside (try_lock flag).0 (after_try_lock (try_lock flag).1)
  call_unlock : Move flag inside (unlock flag) outside

pub record System : Type 0 where
  pub flag : Bool
  pub pc : ℕ → Pc

abbrev pub update : (ℕ → Pc) → ℕ → Pc → ℕ → Pc
update pc i p j = if i == j then p else pc j

pub data Step (s : System) : System → Type 0 where
  turn :
      (i : ℕ) {flag : Bool} {p : Pc}
      → Move s.flag (s.pc i) flag p
      → Step s (record { flag = flag; pc = update s.pc i p })

-- `ATOMIC_FLAG_INIT`, with every thread outside.
abbrev pub initial : System
initial = record { flag = false; pc = λ _. outside }

pub data Reach : System → Type 0 where
  start : Reach initial
  later : {s t : System} → Reach s → Step s t → Reach t
