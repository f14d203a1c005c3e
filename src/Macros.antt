-- ===== src/Macros.antt =====
-- The assertion macros of pans/include/pans/macros.h, by what a use of one does: whether it logs a
-- FATAL record to the root logger, and how control goes on.
use pans.Base.{ℕ, Bool, true, false, if◌then◌else◌}

-- `assert` aborts, unless the library is compiled with `NDEBUG`.
pub data Build : Type 0 where
  debug_build release_build : Build

pub data Control {ℓ} (A : Type ℓ) : Type ℓ where
  falls_through : Control A
  returns : A → Control A
  continues : Control A
  breaks : Control A
  aborts : Control A

pub record Effect {ℓ} (A : Type ℓ) : Type ℓ where
  pub logs : Bool
  pub control : Control A

module _ {ℓ} {A : Type ℓ} where
  -- `PANS_ASSERT` and `PANS_ASSERT2`: the record goes to the root logger, then `assert(x)` runs.
  abbrev pub pans_assert : Build → Bool → Effect A
  pans_assert build true = record { logs = false; control = falls_through }
  pans_assert debug_build false = record { logs = true; control = aborts }
  pans_assert release_build false = record { logs = true; control = falls_through }

  -- What stands behind the assertion in a macro is reached unless that aborts.
  abbrev pub and_then : Control A → Control A → Control A
  and_then aborts exit = aborts
  and_then _ exit = exit

  abbrev pub guarded : Build → Bool → Control A → Effect A
  guarded build x exit = if x then record { logs = false; control = falls_through } else record {
    logs = (pans_assert build x).logs;
    control = and_then (pans_assert build x).control exit;
  }

  -- `ASSERT_RETVAL` and `ASSERT_RETVAL2`; `ASSERT_RETNONE` is the one at a type with one value.
  abbrev pub assert_retval : Build → Bool → A → Effect A
  assert_retval build x val = guarded build x (returns val)

  -- `ASSERT_NOEFFECT` and `ASSERT_NOEFFECT2`.
  abbrev pub assert_noeffect : Build → Bool → Effect A
  assert_noeffect build x = guarded build x falls_through

  -- `ASSERT_CONTINUE` and `ASSERT_CONTINUE2`.
  abbrev pub assert_continue : Build → Bool → Effect A
  assert_continue build x = guarded build x continues

  -- `ASSERT_BREAK` and `ASSERT_BREAK2`.
  abbrev pub assert_break : Build → Bool → Effect A
  assert_break build x = guarded build x breaks

-- The assertions of the logger and the formatter that can fail, by the message that they log.
pub data Assertion : Type 0 where
  trans_to_chars_failed local_time_failed date_format_failed : Assertion
  incomplete_directive missing_close_brace null_format_item : Assertion
  unknown_directive : ℕ → Assertion
  null_formatter null_appender empty_logger_name : Assertion
