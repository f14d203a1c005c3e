-- ===== src/SpinLock/Exclusion.antt =====
-- Mutual exclusion and progress of the spin lock of pans/include/pans/mutex.h.
use pans.Base.{ℕ, Bool, true, false, ◌≡◌, ◌≢◌, refl, sym, ◌∙◌, ap, arith, ◌⊎◌, inl, inr, Bool-cases}
use mathlib.Core.Bool.{not}
use mathlib.Core.Path.{subst}
use pans.SpinLock.{
  Pc, outside, acquiring, inside, Move, call_lock, acquire, spin, call_try_lock, call_unlock,
  System, update, Step, turn, initial, Reach, start, later, after_test_and_set, after_test,
  after_try_lock,
}

-- The flag is set exactly while a thread is inside, and there is one at most.
pub record Inv (s : System) : Type 0 where
  pub free : s.flag ≡ false → (i : ℕ) → s.pc i ≢ inside
  pub held : s.flag ≡ true → (i : ℕ) × (s.pc i ≡ inside)
  pub unique : (i j : ℕ) → s.pc i ≡ inside → s.pc j ≡ inside → i ≡ j

-- The system after a step of thread `i` that leaves it at `q`.
abbrev pub after : System → ℕ → Bool → Pc → System
after s i flag q = record { flag = flag; pc = update s.pc i q }

update_cases :
    (pc : ℕ → Pc) (i : ℕ) (q : Pc) (j : ℕ)
    → ((i ≡ j) × (update pc i q j ≡ q)) ⊎ ((i ≢ j) × (update pc i q j ≡ pc j))
update_cases pc i q j = ground arith

-- A thread inside after the step is the one that moved, or was inside before.
inside_after :
    (pc : ℕ → Pc) (i : ℕ) (q : Pc) (j : ℕ)
    → update pc i q j ≡ inside
    → ((i ≡ j) × (q ≡ inside)) ⊎ ((i ≢ j) × (pc j ≡ inside))
inside_after pc i q j h = elim (update_cases pc i q j) [
  | inl (same, e) ↦ inl (same, sym e ∙ h)
  | inr (other, e) ↦ inr (other, sym e ∙ h)
]

update-other :
    (pc : ℕ → Pc) (i : ℕ) (q : Pc) (j : ℕ) → i ≢ j → pc j ≡ inside → update pc i q j ≡ inside
update-other pc i q j other h = ground arith

update-same : (pc : ℕ → Pc) (i : ℕ) (q : Pc) → update pc i q i ≡ q
update-same pc i q = ground arith

-- A thread that was not inside and does not get in, with the flag as it was.
stay :
    (s : System) (v : Inv s) (i : ℕ) (q : Pc)
    → s.pc i ≢ inside
    → q ≢ inside
    → Inv (after s i s.flag q)
stay s v i q out out' = record { free = free'; held = held'; unique = unique' }
  where
    still : (j : ℕ) → update s.pc i q j ≡ inside → s.pc j ≡ inside
    still j h = elim (inside_after s.pc i q j h) [ inl (_, e) ↦ absurd (out' e) | inr (_, e) ↦ e ]

    free' : s.flag ≡ false → (j : ℕ) → update s.pc i q j ≢ inside
    free' e j h = v.free e j (still j h)

    held' : s.flag ≡ true → (j : ℕ) × (update s.pc i q j ≡ inside)
    held' e =
        let (j, at) = v.held e in (j, update-other s.pc i q j (λ same. out (ap s.pc same ∙ at)) at)

    unique' : (j k : ℕ) → update s.pc i q j ≡ inside → update s.pc i q k ≡ inside → j ≡ k
    unique' j k hj hk = v.unique j k (still j hj) (still k hk)

-- A thread gets in where the flag was clear, and sets it.
enter : (s : System) (v : Inv s) (i : ℕ) → s.flag ≡ false → Inv (after s i true inside)
enter s v i clear = record {
  free = λ e j h. cc;
  held = λ _. (i, update-same s.pc i inside);
  unique = λ j k hj hk. sym (mover j hj) ∙ mover k hk;
}
  where
    mover : (j : ℕ) → update s.pc i inside j ≡ inside → i ≡ j
    mover j h = elim (inside_after s.pc i inside j h) [
      | inl (same, _) ↦ same
      | inr (_, e) ↦ absurd (v.free clear j e)
    ]

-- The thread inside leaves, and clears the flag.
leave : (s : System) (v : Inv s) (i : ℕ) → s.pc i ≡ inside → Inv (after s i false outside)
leave s v i at = record {
  free = λ _ j h. nobody j h;
  held = λ e. cc;
  unique = λ j k hj hk. absurd (nobody j hj);
}
  where
    nobody : (j : ℕ) → update s.pc i outside j ≢ inside
    nobody j h = elim (inside_after s.pc i outside j h) [
      | inl (_, e) ↦ cc
      | inr (other, e) ↦ absurd (other (v.unique i j at e))
    ]

-- A `test_and_set` by a thread that is not inside: it gets in where the flag was clear, and goes
-- elsewhere where it was set.
try_enter :
    (s : System) (v : Inv s) (i : ℕ) (p : Bool → Pc)
    → s.pc i ≢ inside
    → p true ≢ inside
    → p false ≡ inside
    → (was : Bool) → s.flag ≡ was
    → Inv (after s i true (p was))
try_enter s v i p out missed got true e =
    subst (λ flag. Inv (after s i flag (p true))) e (stay s v i (p true) out missed)
try_enter s v i p out missed got false e =
    subst (λ q. Inv (after s i true q)) (sym got) (enter s v i e)

after_test-outside : (was : Bool) → after_test was ≢ inside
after_test-outside true h = cc
after_test-outside false h = cc

Move-Inv :
    (s : System) (v : Inv s) (i : ℕ) {flag : Bool} {p q : Pc}
    → Move s.flag p flag q
    → s.pc i ≡ p
    → Inv (after s i flag q)
Move-Inv s v i call_lock e = stay s v i acquiring (λ h. cc) (λ h. cc)
Move-Inv s v i acquire e = try_enter s v i after_test_and_set (λ h. cc) (λ h. cc) refl s.flag refl
Move-Inv s v i spin e = stay s v i (after_test s.flag) (λ h. cc) (after_test-outside s.flag)
Move-Inv s v i call_try_lock e =
    try_enter s v i (λ was. after_try_lock (not was)) (λ h. cc) (λ h. cc) refl s.flag refl
Move-Inv s v i call_unlock e = leave s v i e

initial-Inv : Inv initial
initial-Inv = record { free = λ _ i h. cc; held = λ h. cc; unique = λ i j h _. cc }

Step-Inv : {s t : System} → Inv s → Step s t → Inv t
Step-Inv {s} v (turn i m) = Move-Inv s v i m refl

Reach-Inv : {s : System} → Reach s → Inv s
Reach-Inv start = initial-Inv
Reach-Inv (later r t) = Step-Inv (Reach-Inv r) t

-- However the threads' steps interleave, two threads between their `lock` or successful `try_lock`
-- and their `unlock` are the same thread.
pub mutual_exclusion : (s : System) (i j : ℕ) → Reach s → s.pc i ≡ inside → s.pc j ≡ inside → i ≡ j
mutual_exclusion s i j r hi hj = (Reach-Inv r).unique i j hi hj

-- The lock is never lost: in every reachable state in which a thread `i` is at the `test_and_set` of
-- `lock`, either some thread is inside, and its `unlock` is a step that leaves the flag clear, or the
-- flag is clear, and the `test_and_set` of `i` is a step that puts `i` inside.
pub never_lost :
    (s : System) (i : ℕ)
    → Reach s
    → s.pc i ≡ acquiring
    → ((j : ℕ) × (s.pc j ≡ inside) × Step s (after s j false outside))
      ⊎ ((s.flag ≡ false) × Step s (after s i true inside))
never_lost s i r here = elim (Bool-cases s.flag) [
  | inl set ↦ let (j, at) = (Reach-Inv r).held set in inl (j, at, release j at)
  | inr clear ↦ inr (clear, take_it i here clear)
]
  where
    release : (i : ℕ) → s.pc i ≡ inside → Step s (after s i false outside)
    release i at = turn i (subst (λ p. Move s.flag p false outside) (sym at) call_unlock)

    take_it : (i : ℕ) → s.pc i ≡ acquiring → s.flag ≡ false → Step s (after s i true inside)
    take_it i at clear = turn i (
        subst (λ p. Move s.flag p true inside) (sym at)
          (subst (λ was. Move was acquiring true inside) (sym clear) acquire))
