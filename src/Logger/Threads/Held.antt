-- ===== src/Logger/Threads/Held.antt =====
-- Who holds the mutex of a logger of pans/src/Logger/Logger.cc, and what it holds still.
use pans.Base.Turns.{
  ==-same, ==-other, is_owner, owner_is, update_pc, note, update_pc-same, update_pc_cases, own, add,
  own-note, own-note_other,
}
use pans.Base.{
  ℕ, Bool, true, false, ◌≡◌, ◌≢◌, refl, sym, ap, ◌∙◌, ◌==◌, ==_iff, Option, some, List, [], ◌∷◌,
  Bool-cases, inl, inr, length, drop, ◌||◌, ◌≤◌,
}
use mathlib.Core.Path.{subst}
use pans.Formatter.Pattern.{Formatter}
use pans.Logger.{erase}
use pans.LogLevel.{Level}
use pans.Logger.Threads.{
  Change, Pc, outside, wants_shared, testing, looping, leaving, passing, wants_unique, changing,
  leaving_unique, undefined, Shared, Event, changed, System,
}
use pans.Logger.Threads.Trace.{idle, owes, Trace}

abbrev pub contains : ℕ → List ℕ → Bool
contains i [] = false
contains i (j ∷ js) = (j == i) || contains i js

pub contains-here : (i : ℕ) (js : List ℕ) → contains i (i ∷ js) ≡ true
contains-here i js = rw (==-same i) refl

pub contains-behind : (i j : ℕ) (js : List ℕ) → i ≢ j → contains j (i ∷ js) ≡ contains j js
contains-behind i j js other = rw (==-other i j other) refl

contains-erase : (i j : ℕ) (js : List ℕ) → i ≢ j → contains j (erase (some i) js) ≡ contains j js
contains-erase i j [] other = refl
contains-erase i j (k ∷ js) other =
    let rest = contains-erase i j js other in
    elim (Bool-cases (k == i)) [
      | inl same ↦ rw (same, is_other same) rest
      | inr off ↦ rw off (ap (λ b. (k == j) || b) rest)
    ]
  where
    is_other : k == i ≡ true → k == j ≡ false
    is_other same = ==-other k j (λ e. other (sym ((==_iff k i).0 same) ∙ e))

contains-erase_self : (i : ℕ) (js : List ℕ) → contains i (erase (some i) js) ≡ false
contains-erase_self i [] = refl
contains-erase_self i (k ∷ js) =
    let rest = contains-erase_self i js in
    elim (Bool-cases (k == i)) [ inl same ↦ rw same rest | inr off ↦ rw (off, off) rest ]

-- The places under the mutex, held for reading or for writing.
abbrev pub holds_shared : Pc → Bool
holds_shared (testing job) = true
holds_shared (looping job formatter k end) = true
holds_shared leaving = true
holds_shared (undefined job) = true
holds_shared _ = false

abbrev pub holds_unique : Pc → Bool
holds_unique (changing c) = true
holds_unique leaving_unique = true
holds_unique _ = false

-- What a thread has done, by its place, on a logger with this formatter and these appenders.
abbrev pub At : Formatter → List ℕ → Pc → List Event → Type 0
At formatter appenders (testing job) events = Trace events (owes job formatter appenders appenders)
At formatter appenders (undefined job) events =
    Trace events (owes job formatter appenders appenders)
At formatter appenders (looping job found k end) events =
    (found ≡ formatter)
    × (end ≡ length appenders)
    × (k ≤ end)
    × Trace events (owes job found appenders (drop k appenders))
At formatter appenders _ events = Trace events idle

-- The place of a thread that does not hold the mutex says nothing of the logger.
At-free :
    (formatter formatter' : Formatter) (appenders appenders' : List ℕ) (events : List Event)
    (p : Pc)
    → holds_shared p ≡ false
    → At formatter appenders p events
    → At formatter' appenders' p events
At-free formatter formatter' appenders appenders' events outside free a = a
At-free formatter formatter' appenders appenders' events (wants_shared job) free a = a
At-free formatter formatter' appenders appenders' events (testing job) free a = absurd cc
At-free formatter formatter' appenders appenders' events (looping job found k end) free a =
    absurd cc
At-free formatter formatter' appenders appenders' events leaving free a = a
At-free formatter formatter' appenders appenders' events (undefined job) free a = absurd cc
At-free formatter formatter' appenders appenders' events (passing job) free a = a
At-free formatter formatter' appenders appenders' events (wants_unique c) free a = a
At-free formatter formatter' appenders appenders' events (changing c) free a = a
At-free formatter formatter' appenders appenders' events leaving_unique free a = a

-- The threads that hold the mutex are those at a place under it, no thread holds it for reading while
-- one holds it for writing, and each thread has done what its place says.
pub record Valid (log : List (ℕ × Event)) (s : System) : Type 0 where
  pub sharing : (i : ℕ) → contains i s.shared.sharers ≡ holds_shared (s.pc i)
  pub owning : (i : ℕ) → is_owner i s.shared.owner ≡ holds_unique (s.pc i)
  pub alone : (i : ℕ) → s.shared.owner ≡ some i → s.shared.sharers ≡ []
  pub at : (i : ℕ) → At s.shared.formatter s.shared.appenders (s.pc i) (own i log)

module _ (log : List (ℕ × Event)) (s : System) (i : ℕ) (v : Valid log s) where
  -- A step from one valid place to another.
  pub moved :
      (event : Option Event) (after : Shared) (q : Pc)
      → ((j : ℕ) → i ≢ j → contains j after.sharers ≡ contains j s.shared.sharers)
      → contains i after.sharers ≡ holds_shared q
      → ((j : ℕ) → i ≢ j → is_owner j after.owner ≡ is_owner j s.shared.owner)
      → is_owner i after.owner ≡ holds_unique q
      → ((j : ℕ) → after.owner ≡ some j → after.sharers ≡ [])
      → ((j : ℕ) → i ≢ j → At after.formatter after.appenders (s.pc j) (own j log))
      → At after.formatter after.appenders q (add event (own i log))
      → Valid (note i event log) (record { shared = after; pc = update_pc s.pc i q })
  moved event after q share shares own_it owns one others here = record {
    sharing = λ j. elim (update_pc_cases s.pc i q j) [
      | inl (same, moves) ↦ rw (moves, sym same) shares
      | inr (other, stays) ↦ rw stays (share j other ∙ v.sharing j)
    ];
    owning = λ j. elim (update_pc_cases s.pc i q j) [
      | inl (same, moves) ↦ rw (moves, sym same) owns
      | inr (other, stays) ↦ rw stays (own_it j other ∙ v.owning j)
    ];
    alone = one;
    at = λ j. elim (update_pc_cases s.pc i q j) [
      | inl (same, moves) ↦
          subst
            (λ j.
              At after.formatter after.appenders (update_pc s.pc i q j) (own j (note i event log)))
            same (rw (update_pc-same s.pc i q, own-note i event log) here)
      | inr (other, stays) ↦ rw (stays, own-note_other i j event log other) (others j other)
    ];
  }

  -- A step that leaves the mutex, the formatter and the appenders.
  pub quiet :
      (event : Option Event) (level : Level) (p q : Pc)
      → p ≡ s.pc i
      → holds_shared p ≡ holds_shared q
      → holds_unique p ≡ holds_unique q
      → At s.shared.formatter s.shared.appenders q (add event (own i log))
      → Valid
          (note i event log)
          (record { shared = record s.shared { level = level }; pc = update_pc s.pc i q })
  quiet event level p q here shares owns done =
      moved event (record s.shared { level = level }) q (λ j other. refl)
        (v.sharing i ∙ sym (ap holds_shared here) ∙ shares) (λ j other. refl)
        (v.owning i ∙ sym (ap holds_unique here) ∙ owns) v.alone (λ j other. v.at j) done

  -- The holder of the lock for writing gives the logger another formatter and other appenders.
  pub rewritten :
      (c : Change) (formatter : Formatter) (appenders : List ℕ)
      → changing c ≡ s.pc i
      → Trace (changed c ∷ own i log) idle
      → Valid ((i, changed c) ∷ log) (record {
        shared = record s.shared { formatter = formatter; appenders = appenders };
        pc = update_pc s.pc i leaving_unique;
      })
  rewritten c formatter appenders here done =
      moved (some (changed c)) (record s.shared { formatter = formatter; appenders = appenders })
        leaving_unique (λ j other. refl) (v.sharing i ∙ sym (ap holds_shared here))
        (λ j other. refl) owns v.alone
        (λ j other. At-free _ formatter _ appenders (own j log) (s.pc j) (away j) (v.at j)) done
    where
      owns : is_owner i s.shared.owner ≡ true
      owns = v.owning i ∙ sym (ap holds_unique here)

      away : (j : ℕ) → holds_shared (s.pc j) ≡ false
      away j = sym (v.sharing j) ∙ ap (contains j) (v.alone i (owner_is i s.shared.owner owns))

  -- A thread gives back the lock for reading.
  pub shared_lock_left :
      (event : Option Event) (p q : Pc)
      → p ≡ s.pc i
      → holds_shared q ≡ false
      → holds_unique p ≡ holds_unique q
      → At s.shared.formatter s.shared.appenders q (add event (own i log))
      → Valid (note i event log) (record {
        shared = record s.shared { sharers = erase (some i) s.shared.sharers };
        pc = update_pc s.pc i q;
      })
  shared_lock_left event p q here not_shared owns done =
      moved event (record s.shared { sharers = erase (some i) s.shared.sharers }) q
        (λ j other. contains-erase i j s.shared.sharers other)
        (contains-erase_self i s.shared.sharers ∙ sym not_shared) (λ j other. refl)
        (v.owning i ∙ sym (ap holds_unique here) ∙ owns) (λ j h. ap (erase (some i)) (v.alone j h))
        (λ j other. v.at j) done
