-- ===== src/Logger/Manager/Threads/Guarded.antt =====
-- The steps of threads in `getLogger` (pans/src/Logger/Logger.cc) by what they do to the mutex.
use pans.Base.Turns.{is_owner, is_owner-other, owner_is, update_pc, update_pc_cases, note}
use pans.Base.{ℕ, ◌≡◌, ◌≢◌, refl, sym, ap, ◌∙◌, true, false, Option, none, List, inl, inr}
use pans.Logger.{World}
use pans.Logger.Manager.{Manager}
use pans.Logger.Manager.Names.{IsValid}
use pans.Logger.Manager.Threads.{Pc, outside, Event, Shared, with_world, System}
use pans.Logger.Manager.Threads.Stage.{holds, Stage, Stage-free, Stage-with_world, Known}

-- The thread that holds the mutex is the one at a place under it, the manager is valid, each thread knows
-- what its place says, and the loggers that were returned are those of their names.
pub record Valid (log : List (ℕ × Event)) (s : System) : Type 0 where
  pub owning : (i : ℕ) → is_owner i s.shared.owner ≡ holds (s.pc i)
  pub valid : IsValid s.shared.manager
  pub stage : (i : ℕ) → Stage s.shared.manager (s.pc i)
  pub known : Known s.shared.manager.entries log

module _ (log : List (ℕ × Event)) (s : System) (i : ℕ) (v : Valid log s) where
  -- A step from one valid place to another.
  pub moved :
      (event : Option Event) (after : Shared) (q : Pc)
      → ((j : ℕ) → i ≢ j → is_owner j after.owner ≡ is_owner j s.shared.owner)
      → is_owner i after.owner ≡ holds q
      → IsValid after.manager
      → ((j : ℕ) → i ≢ j → Stage after.manager (s.pc j))
      → Stage after.manager q
      → Known after.manager.entries (note i event log)
      → Valid (note i event log) (record { shared = after; pc = update_pc s.pc i q })
  moved event after q own_it owns valid others stage known = record {
    owning = λ j. elim (update_pc_cases s.pc i q j) [
      | inl (same, moves) ↦ rw (moves, sym same) owns
      | inr (other, stays) ↦ rw stays (own_it j other ∙ v.owning j)
    ];
    valid = valid;
    stage = λ j. elim (update_pc_cases s.pc i q j) [
      | inl (same, moves) ↦ rw moves stage
      | inr (other, stays) ↦ rw stays (others j other)
    ];
    known = known;
  }

  -- A step that leaves what is shared.
  pub quiet :
      (event : Option Event) (p q : Pc)
      → p ≡ s.pc i
      → holds p ≡ holds q
      → Stage s.shared.manager q
      → Known s.shared.manager.entries (note i event log)
      → Valid (note i event log) (record { shared = s.shared; pc = update_pc s.pc i q })
  quiet event p q here owns stage known =
      moved event s.shared q (λ j other. refl) (v.owning i ∙ sym (ap holds here) ∙ owns) v.valid
        (λ j other. v.stage j) stage known

  -- A step of a thread outside that changes the loggers, but no name.
  pub changed :
      (w : World)
      → outside ≡ s.pc i
      → w.logger_count ≡ s.shared.manager.world.logger_count
      → ((id : ℕ) → (w.loggers id).name ≡ (s.shared.manager.world.loggers id).name)
      → IsValid (record s.shared.manager { world = w })
      → Valid log (record { shared = with_world w s.shared; pc = update_pc s.pc i outside })
  changed w here counted same valid =
      moved none (with_world w s.shared) outside (λ j other. refl)
        (v.owning i ∙ sym (ap holds here)) valid
        (λ j other. Stage-with_world s.shared.manager w counted same (s.pc j) (v.stage j)) tt
        v.known

  -- A step of the thread that holds the mutex, and keeps it.
  pub inside :
      (p q : Pc) (m : Manager)
      → p ≡ s.pc i
      → holds p ≡ true
      → holds q ≡ true
      → IsValid m
      → Stage m q
      → Known m.entries log
      → Valid log (record { shared = record s.shared { manager = m }; pc = update_pc s.pc i q })
  inside p q m here held stays valid stage known =
      moved none (record s.shared { manager = m }) q (λ j other. refl) (owns ∙ sym stays) valid
        (λ j other. Stage-free s.shared.manager m (s.pc j) (away j other) (v.stage j)) stage known
    where
      owns : is_owner i s.shared.owner ≡ true
      owns = v.owning i ∙ sym (ap holds here) ∙ held

      away : (j : ℕ) → i ≢ j → holds (s.pc j) ≡ false
      away j other =
          sym (v.owning j)
          ∙ ap (is_owner j) (owner_is i s.shared.owner owns)
          ∙ is_owner-other i j other

  -- The mutex is given back.
  pub given_back :
      (event : Option Event) (p : Pc)
      → p ≡ s.pc i
      → holds p ≡ true
      → Known s.shared.manager.entries (note i event log)
      → Valid
          (note i event log)
          (record { shared = record s.shared { owner = none }; pc = update_pc s.pc i outside })
  given_back event p here held known =
      moved event (record s.shared { owner = none }) outside
        (λ j other.
          sym (ap (is_owner j) (owner_is i s.shared.owner owns) ∙ is_owner-other i j other))
        refl v.valid (λ j other. v.stage j) tt known
    where
      owns : is_owner i s.shared.owner ≡ true
      owns = v.owning i ∙ sym (ap holds here) ∙ held
