-- ===== src/Logger/Tests.antt =====
-- The theorems on loggers at a manager with the root logger and one more.
use mathlib.Core.Bool.{false≢true}
use mathlib.Core.List.{flatten}
use pans.Base.{ℕ, some, [], ◌∷◌, ◌≡◌, refl, codes, arith}
use pans.Formatter.{DateCache, seconds_of}
use pans.Formatter.Output.{record_text, IsFresh}
use pans.Formatter.Samples.{clock, none_left, log_record, answer, log_record-InRange}
use pans.LogLevel.{Level}
use pans.Logger.{flush, submitted, submit, deliver}
use pans.Logger.Flush.{Flushes, flush-Flushes}
use pans.Logger.Manager.{Manager, got, get_logger}
use pans.Logger.Manager.Names.{Gives, get_logger-Gives}
use pans.Logger.Submit.{submit_delivers}
use pans.Macros.{Build}
use pans.Logger.Samples.{outputs, root_logger, manager, manager-IsValid, works, net, both}

submit_delivers_example :
    (cache : DateCache) × IsFresh (codes "09") log_record cache
    × (submit works clock none_left Build.debug_build 1 both.world 0 log_record
        ≡ submitted (record both.world {
          outputs =
              deliver works
                (0 ∷ [])
                Level.warn
                (record_text (codes "09") log_record root_logger.formatter.items)
                outputs;
          cache = cache;
        }))
unfolding seconds_of flatten
submit_delivers_example =
    submit_delivers works clock none_left Build.debug_build both.world 0 log_record (codes "%H")
      answer 0 refl refl (refl, tt) log_record-InRange (λ e. absurd (false≢true e)) (omega arith)

get_logger-Gives_example :
    (id : ℕ) × (m' : Manager) × (get_logger Build.debug_build net manager ≡ got (some id) m')
    × Gives net manager id m'
get_logger-Gives_example = get_logger-Gives Build.debug_build net manager manager-IsValid refl

flush-Flushes_example : Flushes works (0 ∷ []) (flush works 1 both.world 0)
flush-Flushes_example = flush-Flushes works 0 both.world 0 refl
