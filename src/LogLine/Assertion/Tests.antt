-- ===== src/LogLine/Assertion/Tests.antt =====
-- The theorems on the records of failed assertions, at concrete loggers.
use pans.Base.Int.{pos, eqb_ℤ}
use pans.Base.{ℕ, arith, ◌≢◌, Bool-cases, ◌==◌, inl, inr, false, ◌≡◌, refl, some, [], ◌∷◌, codes}
use pans.Formatter.{TimeLibrary, FormatItem, seconds_of}
use pans.Formatter.Samples.{clock, none_left, log_record, log_record-InRange}
use pans.LogLine.Assertion.Samples.{site, site-AreWords}
use pans.LogLine.Assertion.{submit_logging}
use pans.LogLine.Assertion.Ends.{three_submits_suffice}
use pans.LogLine.Assertion.Quiet.{DatesFit, submit_logging-submit}
use pans.LogLine.Assertion.Recursion.{submit_logging-never_ends}
use pans.Logger.{out_of_fuel, submit}
use pans.Logger.Samples.{manager, manager-IsValid, both, root_logger, works}
use pans.Macros.{Build}

-- A C library for which no text fits.
abbrev refusing : TimeLibrary Unit
refusing = record { localtime_r = λ _. some tt; strftime = λ format tm. (0, []) }

site-late : eqb_ℤ (seconds_of (pos 1700000001000000000)) (pos 0) ≡ false
unfolding seconds_of
site-late = refl

log_record-late : eqb_ℤ (seconds_of log_record.timestamp) (pos 0) ≡ false
unfolding seconds_of
log_record-late = refl

submit_logging-never_ends_example :
    submit_logging works refusing none_left Build.release_build site 0 9 manager.world 0 log_record
    ≡ out_of_fuel
submit_logging-never_ends_example =
    submit_logging-never_ends works refusing none_left Build.release_build site 0 root_logger
      (codes "%H") (FormatItem.message ∷ []) refl refl refl (λ n which tm got. refl) 9 manager.world
      log_record (record { logger = refl; late = λ n which. site-late }) refl (λ tm got. refl)
      log_record-late

fitting :
    (other : ℕ) → DatesFit clock log_record.timestamp (both.world.loggers other).formatter.items
fitting other = elim (Bool-cases (1 == other)) [
  | inl net ↦ rw net ((tt, refl, refl), tt)
  | inr root ↦ rw root ((tt, refl, refl), tt)
]

submit_logging-submit_example :
    submit_logging works clock none_left Build.debug_build site 0 2 both.world 1 log_record
    ≡ submit works clock none_left Build.debug_build 2 both.world 1 log_record
submit_logging-submit_example =
    submit_logging-submit works clock none_left Build.debug_build site 0 log_record
      log_record-InRange 2 both.world 1 fitting

three_submits_suffice_example :
    submit_logging works clock none_left Build.release_build site 0 3 manager.world 0 log_record
    ≢ out_of_fuel
three_submits_suffice_example =
    three_submits_suffice works clock none_left Build.release_build site manager manager-IsValid
      site-AreWords (λ n which. ((tt, refl, refl), tt)) 0 log_record (omega arith)
