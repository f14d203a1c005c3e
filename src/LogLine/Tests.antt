-- ===== src/LogLine/Tests.antt =====
-- Runs of the front ends of the loggers, and their theorems at concrete values.
use pans.Appender.{stdout, empty_sink}
use pans.Base.Int.{ℤ, pos}
use pans.Base.{
  ℕ, ◌-◌, ◌≤◌, ◌≡◌, refl, ◌∙◌, Bool, true, none, some, [], ◌∷◌, ◌++◌, Bytes, codes, length, min,
  take-append_le, take-min, ◌⊎◌, arith,
}
use pans.Formatter.{FormatItem, empty_cache}
use pans.Formatter.Samples.{clock, none_left}
use pans.LogLevel.{Level}
use pans.Logger.{World, submit, should_log}
use pans.LogLine.{
  Origin, LogLineImpl, make_log_line, get_record, Printed, printed, destroy, put_texts, log_printf,
  log_level, printf_format_inline_capacity,
}
use pans.LogLine.Guard.{log_level-unguarded}
use pans.LogLine.Printf.{IsRefused, PrintsText, with_message, log_printf-whole}
use pans.Macros.{Build}

abbrev world : World
world = record {
  loggers = λ _. record {
    name = codes "net";
    level = Level.info;
    formatter = record { pattern_text = codes "%m"; items = FormatItem.message ∷ [] };
    appenders = 0 ∷ [];
    root = none;
  };
  logger_count = 1;
  outputs = record {
    cout = empty_sink;
    error_output = [];
    files = λ _. empty_sink;
    file_count = 0;
    impls = λ _. record { target = stdout; level = Level.info };
    impl_count = 1;
  };
  cache = empty_cache;
  failed = [];
}

abbrev origin : Origin
origin = record {
  timestamp = pos 1700000000123456789;
  elapsed = pos 5000000;
  thread_id = 7;
  fiber_id = 0;
  thread_name = codes "io";
}

abbrev impl : LogLineImpl
impl = make_log_line origin 0 Level.warn 12 (codes "a.cc")

abbrev works : ℕ → Bool
works _ = true

-- A format that prints "hello".
abbrev vsnprintf : ℕ → ℤ × Bytes
vsnprintf size = (pos 5, codes "hello" ++ 0 ∷ [])

vsnprintf-PrintsText : PrintsText vsnprintf (codes "hello")
vsnprintf-PrintsText = record {
  bytes = λ size. codes "hello" ++ 0 ∷ [];
  answer = λ size h. refl;
  held = λ size h.
      take-append_le (min 5 (size - 1)) (codes "hello") (0 ∷ []) (omega arith)
      ∙ take-min (size - 1) (codes "hello");
}

log_printf-whole_example :
    (log_printf works clock none_left Build.debug_build 2 (some vsnprintf) world impl
      ≡ printed (
          submit works clock none_left Build.debug_build 2 world 0
            (with_message (codes "hello") (get_record world impl))))
    ⊎ ((printf_format_inline_capacity ≤ length (codes "hello"))
        × IsRefused none_left
        × ((log_printf works clock none_left Build.debug_build 2 (some vsnprintf) world impl
              ≡ printed (
                  submit works clock none_left Build.debug_build 2 world 0
                    (with_message [] (get_record world impl))))
            ⊎ (log_printf works clock none_left Build.debug_build 2 (some vsnprintf) world impl
                ≡ Printed.bad_alloc (
                    submit works clock none_left Build.debug_build 2 world 0
                      (with_message [] (get_record world impl))))))
log_printf-whole_example =
    log_printf-whole works clock none_left Build.debug_build 2 world impl refl vsnprintf
      (codes "hello") vsnprintf-PrintsText (omega arith)

log_level-unguarded_example :
    log_level works clock none_left Build.debug_build 2 origin world
      (some 0)
      Level.debug
      12
      (codes "a.cc")
      (codes "x" ∷ [])
    ≡ destroy works clock none_left Build.debug_build 2 world (
        put_texts none_left (codes "x" ∷ []) (make_log_line origin 0 Level.debug 12 (codes "a.cc")))
unfolding should_log
log_level-unguarded_example =
    log_level-unguarded works clock none_left Build.debug_build 2 origin world 0 Level.debug 12
      (codes "a.cc") (codes "x" ∷ []) (λ h. cc)
