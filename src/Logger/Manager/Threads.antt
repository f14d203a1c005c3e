-- ===== src/Logger/Manager/Threads.antt =====
-- `LoggerManager` of pans/src/Logger/Logger.cc used by any number of threads in a release build: the steps
-- of `getLogger` and `getRoot`, and the methods of the loggers, each as a whole, which come in any order.
pub mod Stage
pub mod Guarded
pub mod Once
mod Tests
use pans.Base.Turns.{update_pc, note}
use pans.Base.{
  ℕ, suc, Bool, ◌≡◌, ◌<◌, true, false, Option, none, some, List, [], ◌∷◌, ◌++◌, Bytes, is_empty,
}
use pans.Buffer.{Allocator}
use pans.Formatter.{TimeLibrary}
use pans.Logger.{LoggerImpl, World, set_logger}
use pans.Logger.Client.{Call, perform}
use pans.Logger.Manager.{Manager, find, make_logger, root_name, set_root}
use pans.LogLine.Assertion.{Site}
use pans.Macros.{Build, Assertion, empty_logger_name}

-- Where a thread stands: outside; before the constructor of its `lock_guard`, before `find`, before the
-- logger is made, before `emplace`, or before the destructor, with what is returned or with an exception.
pub data Pc : Type 0 where
  outside : Pc
  wants : Bytes → Pc
  finding : Bytes → Pc
  creating : Bytes → Pc
  entering : Bytes → ℕ → Pc
  leaving : Bytes → ℕ → Pc
  unwinding : Pc

-- What is noted: the logger that is returned for a name; "root" for `getRoot`.
pub data Event : Type 0 where
  returned : Bytes → ℕ → Event

pub record Shared : Type 0 where
  pub manager : Manager
  pub owner : Option ℕ

abbrev pub with_world : World → Shared → Shared
with_world w s = record s { manager = record s.manager { world = w } }

-- `make_shared` and `SetRoot`: the new logger takes a place of the heap, which no other thread knows.
abbrev pub place_logger : LoggerImpl → Shared → Shared
place_logger impl s =
    let m = s.manager in
    with_world
      (record (set_logger m.world.logger_count (set_root m.root impl) m.world) {
        logger_count = suc m.world.logger_count;
      })
      s

-- `loggers_.emplace`.
abbrev pub emplace : Bytes → ℕ → Shared → Shared
emplace name id s = record s {
  manager = record s.manager { entries = (name, id) ∷ s.manager.entries };
}

-- ASSERT_RETVAL2 on an empty name: a null pointer is returned before the lock.
abbrev pub refuse_name : Shared → Shared
refuse_name s =
    let w = s.manager.world in
    with_world (record w { failed = w.failed ++ empty_logger_name ∷ [] }) s

pub record System : Type 0 where
  pub shared : Shared
  pub pc : ℕ → Pc

abbrev pub initial : Manager → System
initial m = record { shared = record { manager = m; owner = none }; pc = λ _. outside }

module _ (locks : ℕ → Bool) {Tm : Type 0} (time : TimeLibrary Tm) (alloc : Allocator) where
  -- One step of thread `i`, from what the threads share and its place to those afterwards.
  pub data Move (i : ℕ) (s : Shared) : Pc → Option Event → Shared → Pc → Type 0 where
    call_empty :
        (name : Bytes) → is_empty name ≡ true → Move i s outside none (refuse_name s) outside
    call : (name : Bytes) → is_empty name ≡ false → Move i s outside none s (wants name)
    call_get_root : Move i s outside (some (returned root_name s.manager.root)) s outside
    call_method :
        (site : ℕ → Assertion → Site) (c : Call) (id : ℕ) (w : World)
        → id < s.manager.world.logger_count
        → perform locks time alloc Build.release_build site s.manager.root c id s.manager.world
          ≡ some w
        → Move i s outside none (with_world w s) outside
    lock :
        (name : Bytes)
        → s.owner ≡ none
        → Move i s (wants name) none (record s { owner = some i }) (finding name)
    find_it :
        (name : Bytes) (id : ℕ)
        → find name s.manager.entries ≡ some id
        → Move i s (finding name) none s (leaving name id)
    miss :
        (name : Bytes)
        → find name s.manager.entries ≡ none
        → Move i s (finding name) none s (creating name)
    create :
        (name : Bytes) (impl : LoggerImpl)
        → make_logger Build.release_build name ≡ some impl
        → Move i s
            (creating name)
            none
            (place_logger impl s)
            (entering name s.manager.world.logger_count)
    create_throws : (name : Bytes) → Move i s (creating name) none s unwinding
    enter :
        (name : Bytes) (id : ℕ)
        → Move i s (entering name id) none (emplace name id s) (leaving name id)
    enter_throws : (name : Bytes) (id : ℕ) → Move i s (entering name id) none s unwinding
    unlock :
        (name : Bytes) (id : ℕ)
        → Move i s (leaving name id) (some (returned name id)) (record s { owner = none }) outside
    unlock_throwing : Move i s unwinding none (record s { owner = none }) outside

  pub data Runs (s0 : System) : List (ℕ × Event) → System → Type 0 where
    start : Runs s0 [] s0
    turn :
        (i : ℕ) {log : List (ℕ × Event)} {s : System} {event : Option Event} {after : Shared}
        {q : Pc}
        → Runs s0 log s
        → Move i s.shared (s.pc i) event after q
        → Runs s0 (note i event log) (record { shared = after; pc = update_pc s.pc i q })
