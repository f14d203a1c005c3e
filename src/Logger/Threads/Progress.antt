-- ===== src/Logger/Threads/Progress.antt =====
-- No deadlock of the threads that use a logger of pans/src/Logger/Logger.cc.
use pans.Base.Turns.{is_owner_self, own}
use pans.Base.{
  ℕ, Bool, true, false, ◌≡◌, refl, sym, ap, ◌∙◌, Option, some, List, [], ◌∷◌, ◌⊎◌, inl, inr,
  Bool-cases, Option-cases, arith, is_empty, not, ◌<◌, ◌≤◌, ◌||◌,
}
use pans.Formatter.Pattern.{Formatter}
use pans.LogLevel.{Level}
use mathlib.Core.Path.{subst}
use pans.Logger.Threads.{
  Job, Change, Pc, outside, wants_shared, testing, looping, leaving, passing, wants_unique,
  changing, leaving_unique, undefined, is_own, is_query, answer_it, Shared, Event, Move,
  lock_shared, no_appenders, hand_on, start_loop, call_appender, end_loop, unlock_shared,
  lock_unique, do_change, unlock_unique, System, initial, Runs,
}
use pans.Logger.Threads.Held.{At, Valid, contains, contains-here, holds_shared, holds_unique}
use pans.Logger.Threads.Snapshot.{Runs-Valid}

-- A thread in a call.
abbrev pub in_call : Pc → Bool
in_call outside = false
in_call _ = true

abbrev pub CanMove : ℕ → Shared → Pc → Type 0
CanMove i s p = (event : Option Event) × (after : Shared) × (q : Pc) × Move i s p event after q

less_or_last : (k end : ℕ) → k ≤ end → (k < end) ⊎ (k ≡ end)
less_or_last k end past = omega (arith, past)

nil_or_cons : (js : List ℕ) → (js ≡ []) ⊎ ((j : ℕ) × (rest : List ℕ) × (js ≡ j ∷ rest))
nil_or_cons [] = inl refl
nil_or_cons (j ∷ rest) = inr (j, rest, refl)

-- A place under the mutex.
abbrev holds : Pc → Bool
holds p = holds_shared p || holds_unique p

-- Behind the lock a thread answers, hands on, or goes into the loop.
testing_moves : (i : ℕ) (s : Shared) (job : Job) → CanMove i s (testing job)
testing_moves i s job = elim (Bool-cases (is_own job || not (is_empty s.appenders))) [
  | inl now ↦ elim (Bool-cases (is_query job)) [
    | inl query ↦ (_, _, _, answer_it job query now)
    | inr work ↦ (_, _, _, start_loop job work (filled job work now))
  ]
  | inr empty ↦ (_, _, _, no_appenders job (shared empty) (bare empty))
]
  where
    filled :
        (job : Job)
        → is_query job ≡ false
        → is_own job || not (is_empty s.appenders) ≡ true
        → is_empty s.appenders ≡ false
    filled job work now = ground arith

    shared : is_own job || not (is_empty s.appenders) ≡ false → is_own job ≡ false
    shared empty = ground arith

    bare : is_own job || not (is_empty s.appenders) ≡ false → is_empty s.appenders ≡ true
    bare empty = ground arith

-- A thread that has locked the mutex again.
abbrev pub is_undefined : Pc → Bool
is_undefined (undefined job) = true
is_undefined _ = false

-- A thread that holds the mutex is in a call, and goes on.
holder_moves :
    (i : ℕ) (s : Shared) (p : Pc) (events : List Event)
    → holds p ≡ true
    → is_undefined p ≡ false
    → At s.formatter s.appenders p events
    → (in_call p ≡ true) × CanMove i s p
holder_moves i s (testing job) events h defined a = (refl, testing_moves i s job)
holder_moves i s (undefined job) events h defined a = absurd cc
holder_moves i s (looping job formatter k end) events h defined (same, all, past, a) =
    elim (less_or_last k end past) [
      | inl more ↦ (refl, (_, _, _, call_appender job formatter k end more))
      | inr last ↦ (refl, (_, _, _, end_loop job formatter k end last))
    ]
holder_moves i s leaving events h defined a = (refl, (_, _, _, unlock_shared))
holder_moves i s (changing c) events h defined a = (refl, (_, _, _, do_change c))
holder_moves i s leaving_unique events h defined a = (refl, (_, _, _, unlock_unique))
holder_moves i s outside events h defined a = absurd cc
holder_moves i s (wants_shared job) events h defined a = absurd cc
holder_moves i s (passing job) events h defined a = absurd cc
holder_moves i s (wants_unique c) events h defined a = absurd cc

module _ (log : List (ℕ × Event)) (s : System) (v : Valid log s)
    (defined : (j : ℕ) → is_undefined (s.pc j) ≡ false) where
  abbrev SomeoneMoves : Type 0
  SomeoneMoves = (j : ℕ) × (in_call (s.pc j) ≡ true) × CanMove j s.shared (s.pc j)

  at_holder : (j : ℕ) → holds (s.pc j) ≡ true → SomeoneMoves
  at_holder j h =
      let (busy, m) = holder_moves j s.shared (s.pc j) (own j log) h (defined j) (v.at j) in
      (j, busy, m)

  at_reader : (j : ℕ) → contains j s.shared.sharers ≡ true → SomeoneMoves
  at_reader j there = at_holder j (rw (sym (v.sharing j), there) refl)

  at_writer : (j : ℕ) → s.shared.owner ≡ some j → SomeoneMoves
  at_writer j there = at_holder j (rw (sym (v.owning j), there, is_owner_self j) either)
    where
      either : holds_shared (s.pc j) || true ≡ true
      either = ground arith

  from_outside_lock :
      (i : ℕ) (p : Pc) → p ≡ s.pc i → in_call p ≡ true → CanMove i s.shared p → SomeoneMoves
  from_outside_lock i p here busy m =
      (i, ap in_call (sym here) ∙ busy, subst (CanMove i s.shared) here m)

  for_reading : (i : ℕ) (job : Job) → wants_shared job ≡ s.pc i → SomeoneMoves
  for_reading i job here = elim (Option-cases s.shared.owner) [
    | inl free ↦ from_outside_lock i (wants_shared job) here refl (_, _, _, lock_shared job free)
    | inr (j, there) ↦ at_writer j there
  ]

  for_writing : (i : ℕ) (c : Change) → wants_unique c ≡ s.pc i → SomeoneMoves
  for_writing i c here = elim (Option-cases s.shared.owner) [
    | inr (j, there) ↦ at_writer j there
    | inl free ↦ elim (nil_or_cons s.shared.sharers) [
      | inl nobody ↦
          from_outside_lock i (wants_unique c) here refl (_, _, _, lock_unique c free nobody)
      | inr (j, js, there) ↦ at_reader j (rw there (contains-here j js))
    ]
  ]

  someone_moves : (i : ℕ) (p : Pc) → p ≡ s.pc i → in_call p ≡ true → SomeoneMoves
  someone_moves i outside here busy = absurd cc
  someone_moves i (wants_shared job) here busy = for_reading i job here
  someone_moves i (testing job) here busy = at_holder i (ap holds (sym here))
  someone_moves i (looping job formatter k end) here busy = at_holder i (ap holds (sym here))
  someone_moves i (undefined job) here busy = at_holder i (ap holds (sym here))
  someone_moves i leaving here busy = at_holder i (ap holds (sym here))
  someone_moves i (passing job) here busy =
      from_outside_lock i (passing job) here refl (_, _, _, hand_on job)
  someone_moves i (wants_unique c) here busy = for_writing i c here
  someone_moves i (changing c) here busy = at_holder i (ap holds (sym here))
  someone_moves i leaving_unique here busy = at_holder i (ap holds (sym here))

-- The threads that use a logger never block each other for good: whenever one is in a call, some thread
-- that is in a call has a step, whatever was called before, as long as no thread has locked the mutex
-- again while it holds it (see `reenters`).
pub threads_progress :
    {level : Level} {formatter : Formatter} {appenders : List ℕ} {log : List (ℕ × Event)}
    {s : System} (i : ℕ)
    → Runs (initial level formatter appenders) log s
    → ((j : ℕ) → is_undefined (s.pc j) ≡ false)
    → in_call (s.pc i) ≡ true
    → (j : ℕ) × (in_call (s.pc j) ≡ true) × CanMove j s.shared (s.pc j)
threads_progress {log = log} {s = s} i r defined busy =
    someone_moves log s (Runs-Valid r) defined i (s.pc i) refl busy
