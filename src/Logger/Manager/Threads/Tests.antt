-- ===== src/Logger/Manager/Threads/Tests.antt =====
-- Two threads that ask for one new logger at once, and the theorem at their run.
use mathlib.Core.List.{Memᴰ}
use pans.Base.{ℕ, ◌≡◌, refl, List, [], ◌∷◌, ◌↔◌, arith}
use pans.Formatter.Samples.{clock, none_left}
use pans.LogLevel.{Level}
use pans.LogLine.Assertion.Samples.{site}
use pans.Logger.Client.{Call, perform}
use pans.Logger.Manager.{root_name}
use pans.Logger.Manager.Names.{IsValid, make_logger_named}
use pans.Logger.Manager.Threads.{
  Event, returned, System, initial, Runs, start, turn, call, call_get_root, call_method, lock,
  find_it, miss, create, enter, unlock,
}
use pans.Logger.Manager.Threads.Once.{threads_one_logger}
use pans.Logger.Samples.{manager, manager-IsValid, works, net}
use pans.Macros.{Build}

abbrev log : List (ℕ × Event)
log = (1, returned net 1) ∷ (0, returned net 1) ∷ (2, returned root_name 0) ∷ []

abbrev one : ℕ
one = 1

-- Thread 1 comes while thread 0 makes the logger, thread 2 asks for the root logger and sets its level,
-- and thread 1 finds what thread 0 has made.
abbrev asked : (s : System) × Runs works clock none_left (initial manager) log s
unfolding perform
asked =
    let (impl, made, named_so, unlinked) = make_logger_named Build.release_build net refl in
    (
      _,
      turn 1
          (turn 1
            (turn 1
              (turn 0
                (turn 0
                  (turn 2
                    (turn 0
                      (turn 2
                        (turn 1
                          (turn 0 (turn 0 (turn 0 start (call net refl)) (lock net refl))
                            (miss net refl))
                          (call net refl))
                        call_get_root)
                      (create net impl made))
                    (call_method site (Call.set_level_to Level.error) 0 _ (omega arith) refl))
                  (enter net 1))
                (unlock net 1))
              (lock net refl))
            (find_it net 1 refl))
          (unlock net 1),
    )

threads_one_logger_example :
    IsValid asked.0.shared.manager
    × ((asked.0.shared.manager.world.loggers 1).name ≡ net)
    × ((net ≡ net) ↔ (one ≡ one))
unfolding perform
threads_one_logger_example =
    threads_one_logger works clock none_left 0 1 net net 1 1 manager-IsValid asked.1
      (Memᴰ.tail (Memᴰ.head refl)) (Memᴰ.head refl)
