-- ===== src/Logger/Client/Tests.antt =====
-- The specification of the loggers at a run of a client.
use pans.Appender.{Target, stdout, stream_of}
use pans.Base.Int.{ℤ, pos, eqb_ℤ}
use mathlib.Core.List.{flatten}
use pans.Formatter.{seconds_of}
use pans.Record.{LogRecordView}
use pans.Logger.Client.Output.{as_calls, session_text}
use pans.Logger.Client.Written.{Loggable}
use pans.Logger.Client.Logging.{logging_written}
use pans.Base.{◌++◌, arith, if◌then◌else◌, true, none, some, List, [], ◌∷◌, ◌≡◌, refl, Bytes, codes}
use pans.Formatter.Samples.{answer as hour_of}
use pans.Formatter.Samples.{clock, none_left, log_record, log_record-InRange}
use pans.LogLevel.{Level}
use pans.Logger.Client.{Call, run}
use pans.LogLine.Assertion.Samples.{site, site-AreWords, clock-DatesFit}
use pans.Logger.Client.Refinement.{AreFit, run_refines}
use pans.Logger.Client.Query.{Query, Answer, ask_on, answer}
use pans.Logger.Client.Start.{first_configs, start_refines}
use pans.Logger.Client.Spec.{replay, configs}
use pans.Logger.Manager.{Manager, make_manager, get_logger, root_name}
use pans.Logger.Manager.Names.{IsValid}
use pans.Logger.Samples.{outputs, root_logger, manager, manager-IsValid, works, net}
use pans.Macros.{Build}

abbrev calls : List (Bytes × Call)
calls =
    (net, Call.set_level_to Level.error)
    ∷ (net, Call.add (some 0))
    ∷ (root_name, Call.add none)
    ∷ (codes "db", Call.set_pattern (codes "%"))
    ∷ (root_name, Call.set_pattern (codes "%d%m"))
    ∷ (net, Call.log log_record)
    ∷ (root_name, Call.flush_all)
    ∷ (net, Call.remove (some 0))
    ∷ []

-- The clock prints every date.
every-AreFit : (given : List (Bytes × Call)) → AreFit clock (λ _. site) given
every-AreFit [] = tt
every-AreFit ((name, call) ∷ given) = (
  λ named formatter installs k n which.
      clock-DatesFit (site n which).origin.timestamp formatter.items,
  every-AreFit given,
)

run_refines_example :
    (m' : Manager) × (run works clock none_left Build.release_build (λ _. site) calls manager
      ≡ some m')
    × IsValid m'
    × (configs m' ≡ replay calls (configs manager))
run_refines_example =
    run_refines works clock none_left (λ _. site) (λ k. site-AreWords) calls manager manager-IsValid
      (λ k n which. clock-DatesFit (site n which).origin.timestamp root_logger.formatter.items)
      (refl, (refl, (refl, (refl, (refl, (refl, (refl, (refl, tt)))))))) (every-AreFit calls)

-- Asked behind these calls from the start, "net" is at ERROR, and has no appender left, but the root
-- logger has one.
start_refines_example :
    (m : Manager) × (make_manager Build.release_build outputs ≡ some m)
    × (m1 : Manager) × (run works clock none_left Build.release_build (λ _. site) calls m ≡ some m1)
    × (m2 : Manager) × (ask_on
          (Query.ask_should_log Level.error)
          (get_logger Build.release_build net m1)
        ≡ some (
          answer
              (Query.ask_should_log Level.error)
              net
              (replay calls (first_configs outputs.impl_count)),
          m2,
        ))
start_refines_example =
    start_refines works clock none_left (λ _. site) outputs calls (Query.ask_should_log Level.error)
      net (λ k. site-AreWords)
      (λ formatter installs k n which.
        clock-DatesFit (site n which).origin.timestamp formatter.items)
      (refl, (refl, (refl, (refl, (refl, (refl, (refl, (refl, tt)))))))) (every-AreFit calls) refl

-- The answer is that it logs.
net_logs :
    answer (Query.ask_should_log Level.error) net (replay calls (first_configs 1))
    ≡ Answer.logs true
unfolding pans.Formatter.Pattern.make_formatter pans.Formatter.Pattern.format_item_factory
net_logs = refl

-- The clock prints every hour but that of an empty cache as "09".
abbrev printed : ℤ → Bytes
printed second = if eqb_ℤ second (pos 0) then [] else codes "09"

-- Two names that are new, and the root logger.
abbrev logged : List (Bytes × LogRecordView)
logged = (net, log_record) ∷ (root_name, log_record) ∷ (codes "db", log_record) ∷ []

log_record-Loggable :
    Loggable works clock none_left (codes "%H") printed manager manager-IsValid log_record
unfolding seconds_of flatten
log_record-Loggable = record {
  printable = record { ranges = log_record-InRange; answer = hour_of; prints = refl };
  room = λ id below served. ((refl, tt), omega arith);
}

logging_written_example :
    (m3 : Manager) × (run works clock none_left Build.release_build
        (λ _. site)
        (as_calls logged)
        manager
      ≡ some m3)
    × ((target : Target)
        → (stream_of target m3.world.outputs).written
          ≡ (stream_of target manager.world.outputs).written
            ++ session_text works printed manager target logged)
logging_written_example =
    logging_written works clock none_left (codes "%H") printed manager manager-IsValid (λ _. site)
      logged
      (refl, log_record-Loggable, (refl, log_record-Loggable, (refl, log_record-Loggable, tt))) refl

-- The standard output gets three lines.
three_lines : session_text works printed manager stdout logged ≡ codes "09ok09ok09ok"
unfolding seconds_of flatten
three_lines = refl
