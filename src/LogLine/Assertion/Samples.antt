-- ===== src/LogLine/Assertion/Samples.antt =====
-- Where assertions fail (pans/include/pans/macros.h) in the runs of the loggers, and dates that are
-- printed there.
use pans.Base.Int.{ℤ, pos}
use pans.Base.{ℕ, arith, refl, [], ◌∷◌, List, codes}
use pans.Formatter.{FormatItem, date_time}
use pans.Formatter.Samples.{clock}
use pans.LogLine.Assertion.{Site}
use pans.LogLine.Assertion.Quiet.{DatesFit}
use pans.LogLine.Assertion.Records.{AreWords}
use pans.Macros.{Assertion}

abbrev pub site : ℕ → Assertion → Site
site n which = record {
  origin = record {
    timestamp = pos 1700000001000000000;
    elapsed = pos 5000000;
    thread_id = 7;
    fiber_id = 0;
    thread_name = codes "io";
  };
  line = 133;
  file_name = codes "formatter.cc";
  value = [];
  backtrace = codes "0 main";
}

pub site-AreWords : (n : ℕ) (which : Assertion) → AreWords (site n which).origin (site n which).line
site-AreWords n which = (omega arith, omega arith, omega arith, omega arith)

pub clock-DatesFit : (timestamp : ℤ) (items : List FormatItem) → DatesFit clock timestamp items
clock-DatesFit timestamp [] = tt
clock-DatesFit timestamp (date_time f ∷ items) = ((tt, refl, refl), clock-DatesFit timestamp items)
clock-DatesFit timestamp (_ ∷ items) = clock-DatesFit timestamp items
