-- ===== src/Logger/Manager/Threads/Once.antt =====
-- However threads ask the manager of pans/src/Logger/Logger.cc at once, a name has one logger.
use mathlib.Core.Path.{subst}
use mathlib.Core.List.{Memᴰ}
use pans.Base.Turns.{is_owner_self, is_owner-other, update_pc, note}
use pans.Base.{
  ℕ, ◌≡◌, refl, sym, ap, ◌∙◌, Bool, Option, none, some, List, [], ◌∷◌, Bytes, arith, ◌↔◌,
}
use pans.Buffer.{Allocator}
use pans.Formatter.{TimeLibrary}
use pans.Logger.{LoggerImpl}
use pans.Logger.Client.After.{after-IsValid, name_kept}
use pans.Logger.Client.Method.{perform-Performs}
use pans.Logger.Manager.{Manager, find, root_name}
use pans.Logger.Manager.Names.{IsValid, make_logger_named, find_head, find-injective, update_new}
use pans.Logger.Manager.Threads.{
  Pc, outside, wants, finding, creating, entering, leaving, unwinding, Event, returned, Shared,
  place_logger, emplace, Move, call_empty, call, call_get_root, call_method, lock, find_it, miss,
  create, create_throws, enter, enter_throws, unlock, unlock_throwing, System, initial, Runs, start,
  turn,
}
use pans.Macros.{Build}
use pans.Logger.Manager.Threads.Stage.{
  Stage, Known, Known-emplace, placed-IsValid, emplaced-IsValid,
}
use pans.Logger.Manager.Threads.Guarded.{Valid, moved, quiet, changed, inside, given_back}

module _ (locks : ℕ → Bool) {Tm : Type 0} (time : TimeLibrary Tm) (alloc : Allocator) where
  Move-Valid :
      (log : List (ℕ × Event)) (s : System) (i : ℕ) {p q : Pc} {event : Option Event}
      {after : Shared}
      → Move locks time alloc i s.shared p event after q
      → p ≡ s.pc i
      → Stage s.shared.manager p
      → Valid log s
      → Valid (note i event log) (record { shared = after; pc = update_pc s.pc i q })
  Move-Valid log s i (call_empty name empty) here knows v =
      changed log s i v _ here refl (λ id. refl)
        (record {
          named = v.valid.named;
          root_found = v.valid.root_found;
          root_alone = v.valid.root_alone;
          linked = v.valid.linked;
        })
  Move-Valid log s i (call name some_name) here knows v =
      quiet log s i v none outside (wants name) here refl some_name v.known
  Move-Valid log s i call_get_root here knows v =
      quiet log s i v (some (returned root_name s.shared.manager.root)) outside outside here refl tt
        (v.valid.root_found, v.known)
  Move-Valid log s i (call_method site c id w below ran) here knows v =
      let m = s.shared.manager in
      let p = perform-Performs locks time alloc site c id m v.valid below ran in
      changed log s i v w here p.counted (name_kept m w p v.valid) (after-IsValid m w p v.valid)
  Move-Valid log s i (lock name free) here knows v =
      moved log s i v none (record s.shared { owner = some i }) (finding name)
        (λ j other. rw free (is_owner-other i j other)) (is_owner_self i) v.valid
        (λ j other. v.stage j) knows v.known
  Move-Valid log s i (find_it name id found) here knows v =
      quiet log s i v none (finding name) (leaving name id) here refl found v.known
  Move-Valid log s i (miss name missing) here knows v =
      quiet log s i v none (finding name) (creating name) here refl (knows, missing) v.known
  Move-Valid log s i (create name impl made) here (some_name, missing) v =
      let (impl', made', named_so, unlinked) =
        make_logger_named Build.release_build name some_name in
      let same : impl' ≡ impl = cc in
      let named_so' : impl.name ≡ name = ap (λ (l : LoggerImpl). l.name) (sym same) ∙ named_so in
      inside log s i v (creating name) (entering name s.shared.manager.world.logger_count)
        (place_logger impl s.shared).manager here refl refl
        (placed-IsValid s.shared name impl v.valid missing named_so')
        (
          missing,
          omega arith,
          ap (λ (l : LoggerImpl). l.name)
                (update_new s.shared.manager.world.loggers s.shared.manager.world.logger_count _)
              ∙ named_so',
        )
        v.known
  Move-Valid log s i (create_throws name) here knows v =
      quiet log s i v none (creating name) unwinding here refl tt v.known
  Move-Valid log s i (enter name id) here knows v =
      inside log s i v (entering name id) (leaving name id) (emplace name id s.shared).manager here
        refl refl (emplaced-IsValid s.shared name id v.valid knows)
        (find_head name id s.shared.manager.entries)
        (Known-emplace name id s.shared.manager.entries log knows.0 v.known)
  Move-Valid log s i (enter_throws name id) here knows v =
      quiet log s i v none (entering name id) unwinding here refl tt v.known
  Move-Valid log s i (unlock name id) here knows v =
      given_back log s i v (some (returned name id)) (leaving name id) here refl (knows, v.known)
  Move-Valid log s i unlock_throwing here knows v =
      given_back log s i v none unwinding here refl v.known

  Runs-Valid :
      {m : Manager} {log : List (ℕ × Event)} {s : System}
      → Runs locks time alloc (initial m) log s
      → IsValid m
      → Valid log s
  Runs-Valid start valid = record { owning = λ i. refl; valid = valid; stage = λ i. tt; known = tt }
  Runs-Valid (turn i {log} {s} r step) valid =
      let v = Runs-Valid r valid in Move-Valid log s i step refl (v.stage i) v

abbrev Fits : List (Bytes × ℕ) → ℕ × Event → Type 0
Fits entries (i, returned name id) = find name entries ≡ some id

Known-Fits :
    (entries : List (Bytes × ℕ)) (log : List (ℕ × Event)) (noted : ℕ × Event)
    → Known entries log
    → Memᴰ noted log
    → Fits entries noted
Known-Fits entries [] noted known there = elim there [ ]
Known-Fits entries ((j, returned other k) ∷ log) noted (e, known) (Memᴰ.head here) =
    subst (Fits entries) (sym here) e
Known-Fits entries ((j, returned other k) ∷ log) noted (e, known) (Memᴰ.tail there) =
    Known-Fits entries log noted known there

-- However threads call `getLogger` and `getRoot`, other methods of the loggers, and run into exceptions, in
-- a release build and from a valid manager: the manager is valid after every step, a logger that was
-- returned has its name, and any two that were returned are one logger just when their names are equal.
pub threads_one_logger :
    (locks : ℕ → Bool) {Tm : Type 0} (time : TimeLibrary Tm) (alloc : Allocator) {m : Manager}
    {log : List (ℕ × Event)} {s : System} (i j : ℕ) (name other : Bytes) (id k : ℕ)
    → IsValid m
    → Runs locks time alloc (initial m) log s
    → Memᴰ (i, returned name id) log
    → Memᴰ (j, returned other k) log
    → IsValid s.shared.manager
      × ((s.shared.manager.world.loggers id).name ≡ name)
      × ((name ≡ other) ↔ (id ≡ k))
threads_one_logger locks time alloc {log = log} {s = s} i j name other id k valid r a b =
    let v = Runs-Valid locks time alloc r valid in
    let m = s.shared.manager in
    let here : find name m.entries ≡ some id = Known-Fits m.entries log _ v.known a in
    let there : find other m.entries ≡ some k = Known-Fits m.entries log _ v.known b in
    (
      v.valid,
      (v.valid.named name id here).1,
      (
        λ same.
            let one : some id ≡ some k = sym here ∙ ap (λ n. find n m.entries) same ∙ there in cc,
        λ same. find-injective m v.valid name other id here (there ∙ ap some (sym same)),
      ),
    )
