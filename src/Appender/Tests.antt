-- ===== src/Appender/Tests.antt =====
-- Runs of the appenders, and their theorems at concrete outputs.
use pans.Base.{◌++◌, length, ◌≤◌, List, ◌∷◌, arith, ℕ, Bool, true, false, [], ◌≡◌, refl, codes}
use pans.Appender.{
  stdout, Outputs, file, empty_sink, append, make_file_appender, invalid_argument, open_failed,
}
use pans.Appender.History.{Event, run}
use pans.Appender.Lasting.{Handed, append-fatal_lasts, sync_lasts}
use pans.Appender.Streams.{AllSound}
use pans.LogLevel.{Level, fatal}

-- One appender, to the first file, at WARN.
abbrev outputs : Outputs
outputs = record {
  cout = empty_sink;
  error_output = [];
  files = λ _. empty_sink;
  file_count = 1;
  impls = λ _. record { target = file 0; level = Level.warn };
  impl_count = 1;
}

abbrev works : ℕ → Bool
works _ = true

abbrev fails : ℕ → Bool
fails _ = false

info_dropped : append works 0 Level.info (codes "x") outputs ≡ outputs
unfolding append
info_dropped = refl

no_file :
    (make_file_appender (λ _. true) [] outputs ≡ invalid_argument)
    × (make_file_appender (λ _. false) (codes "a.log") outputs ≡ open_failed)
unfolding make_file_appender
no_file = (refl, refl)

outputs-AllSound : AllSound outputs
outputs-AllSound stdout = record { synced_le = omega arith; flushed_le = omega arith }
outputs-AllSound (file h) = record { synced_le = omega arith; flushed_le = omega arith }

abbrev events : List Event
events =
    Event.append_text 0 Level.error (codes "lost")
    ∷ Event.make_file (codes "b.log")
    ∷ Event.sync_one 0
    ∷ Event.append_text 1 fatal (codes "down")
    ∷ []

append-fatal_lasts_example :
    Handed
      ((outputs.files 0).written ++ codes "down")
      ((run works (λ _. true) (Event.append_text 0 fatal (codes "down") ∷ events) outputs).files 0)
append-fatal_lasts_example =
    append-fatal_lasts works (λ _. true) outputs outputs-AllSound 0 refl (omega arith)
      (codes "down") events refl

sync_lasts_example :
    Handed
      (outputs.files 0).written
      ((run works (λ _. true) (Event.sync_one 0 ∷ events) outputs).files 0)
    × (length (outputs.files 0).written
        ≤ ((run works (λ _. true) (Event.sync_one 0 ∷ events) outputs).files 0).synced)
sync_lasts_example =
    sync_lasts works (λ _. true) outputs outputs-AllSound 0 refl (omega arith) 0 events refl
