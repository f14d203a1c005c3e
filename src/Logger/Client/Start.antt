-- ===== src/Logger/Client/Start.antt =====
-- Everything that a client does with the loggers of pans/src/Logger/Logger.cc, from the manager on that
-- `LoggerManager()` makes.
use mathlib.Core.Path.{fun_ext}
use pans.Appender.{Outputs, make_stdout_appender}
use pans.Base.{
  ℕ, ◌≡◌, refl, ap, ◌∙◌, Bool, false, Option, none, some, List, [], ◌∷◌, Bytes, equal, is_empty,
  Bool-cases, inl, inr,
}
use pans.Buffer.{Allocator}
use pans.Formatter.{TimeLibrary}
use pans.Formatter.Pattern.{make_formatter, format_item_factory}
use pans.Logger.Client.{Call, run}
use pans.Logger.Client.Query.{Query, ask_on, answer, ask_refines}
use pans.Logger.Client.Refinement.{AreNames, AreFit}
use pans.Logger.Client.Spec.{Config, default_config, assign, replay, configs}
use pans.Logger.Manager.{
  Manager, default_log_pattern, get_logger, root_name, make_manager, make_logger, with_formatter,
}
use pans.Logger.Manager.Links.{make_manager-IsValid}
use pans.Logger.Manager.Names.{IsValid}
use pans.LogLine.Assertion.{Site}
use pans.Logger.Client.Ends.{AreOfWords, FitCall}
use pans.Logger.Client.Method.{Installs}
use pans.Macros.{Build, Assertion}
use mathlib.Core.Path.{subst}

-- The configurations of a new manager: the root logger, with the standard output appender.
abbrev pub first_configs : ℕ → Bytes → Option Config
first_configs appender =
    assign root_name (record default_config { appenders = appender ∷ [] }) (λ _. none)

-- The pattern of the root logger.
abbrev pub first_pattern : Call
first_pattern = Call.set_pattern default_log_pattern

make_manager-first_configs :
    (o : Outputs)
    → (m : Manager) × (make_manager Build.release_build o ≡ some m)
      × (configs m ≡ first_configs o.impl_count)
      × Installs first_pattern (m.world.loggers m.root).formatter
unfolding make_manager make_logger with_formatter make_formatter format_item_factory
    make_stdout_appender
make_manager-first_configs o = (
  _,
  refl,
  fun_ext λ other. elim (Bool-cases (equal root_name other)) [
    | inl same ↦ rw same refl
    | inr differs ↦ rw differs refl
  ],
  ([], refl),
)

-- The manager that is made is valid.
first_manager :
    (o : Outputs)
    → (m : Manager) × (make_manager Build.release_build o ≡ some m)
      × IsValid m
      × (configs m ≡ first_configs o.impl_count)
      × Installs first_pattern (m.world.loggers m.root).formatter
first_manager o =
    let (m, made, seen, installs) = make_manager-first_configs o in
    let (m', made', valid, bare) = make_manager-IsValid Build.release_build o in
    let same : m' ≡ m = cc in (m, made, subst IsValid same valid, seen, installs)

-- In a release build, a new manager is made, any calls on loggers by names that are not empty end, and
-- then `shouldLog`, `getLevel`, `getName` and `getFormatterPattern` of a name answer what the same calls
-- on a function from names to configurations say, that at first knows the root logger alone, with the
-- default level and pattern and the standard output appender. The C library prints the dates of the
-- default pattern, and of those that the calls set on the root logger, where assertions may fail, and
-- the numbers there are machine words.
pub start_refines :
    (locks : ℕ → Bool) {Tm : Type 0} (time : TimeLibrary Tm) (alloc : Allocator)
    (sites : ℕ → ℕ → Assertion → Site) (o : Outputs) (calls : List (Bytes × Call)) (query : Query)
    (name : Bytes)
    → AreOfWords sites
    → FitCall time sites first_pattern
    → AreNames calls
    → AreFit time sites calls
    → is_empty name ≡ false
    → (m : Manager) × (make_manager Build.release_build o ≡ some m)
      × (m1 : Manager) × (run locks time alloc Build.release_build sites calls m ≡ some m1)
      × (m2 : Manager) × (ask_on query (get_logger Build.release_build name m1)
          ≡ some (answer query name (replay calls (first_configs o.impl_count)), m2))
start_refines locks time alloc sites o calls query name words first names sets some_name =
    let (m, made, valid, seen, installs) = first_manager o in
    let (m1, ran, m2, asked, valid') =
      ask_refines locks time alloc sites words calls m query name valid
        (first (m.world.loggers m.root).formatter installs) names sets some_name in
    (m, made, m1, ran, m2, asked ∙ ap (λ f. some (answer query name (replay calls f), m2)) seen)
