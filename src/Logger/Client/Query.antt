-- ===== src/Logger/Client/Query.antt =====
-- What a client can ask of a logger of pans/src/Logger/Logger.cc, by its name, after any calls.
use mathlib.Core.Option
use native.Mathlib.Decide.{ℕ_discrete}
use pans.Base.{
  ℕ, suc, ◌≡◌, refl, sym, ap, ◌∙◌, ◌<◌, Bool, true, false, not, ◌&&◌, ◌||◌, Option, none, some,
  List, Bytes, equal, equal_iff, is_empty, ltb, Bool-cases, inl, inr,
}
use pans.Buffer.{Allocator}
use pans.Formatter.{TimeLibrary}
use pans.LogLevel.{Level, to_u8}
use pans.Logger.{World, should_log}
use pans.Logger.Client.{Call, run}
use pans.Logger.Client.Refinement.{AreNames, AreFit, RootFits, Opens, get_logger-Opens, run_refines}
use pans.Logger.Client.Spec.{Config, default_config, or_default, replay, config_of, configs}
use pans.Logger.Manager.{Manager, Got, got, get_logger, find, root_name}
use pans.Logger.Manager.Names.{IsValid}
use pans.LogLine.Assertion.{Site}
use pans.Logger.Client.Ends.{AreOfWords}
use pans.Macros.{Build, Assertion}

pub data Query : Type 0 where
  ask_should_log : Level → Query
  ask_level : Query
  ask_name : Query
  ask_pattern : Query

pub data Answer : Type 0 where
  logs : Bool → Answer
  is_level : Level → Answer
  is_text : Bytes → Answer

-- `Logger::getLevel`, `getName` and `getFormatterPattern`.
abbrev pub get_level : World → ℕ → Level
get_level w id = (w.loggers id).level

abbrev pub get_name : World → ℕ → Bytes
get_name w id = (w.loggers id).name

abbrev pub get_formatter_pattern : World → ℕ → Bytes
get_formatter_pattern w id = (w.loggers id).formatter.pattern_text

-- The method that answers; `none` is the end of the fuel, which is for two loggers.
unfoldable pub ask : Query → World → ℕ → Option Answer
ask (ask_should_log level) w id = Option.map logs (should_log 2 w id level)
ask ask_level w id = some (is_level (get_level w id))
ask ask_name w id = some (is_text (get_name w id))
ask ask_pattern w id = some (is_text (get_formatter_pattern w id))

-- `GetLogger(name)->method()`, with the manager afterwards.
unfoldable pub ask_on : Query → Got → Option (Answer × Manager)
unfolding ask
ask_on query (got (some id) m) = Option.map (λ answer. (answer, m)) (ask query m.world id)
ask_on query _ = none

-- The answers that configurations give: a record is let through by the level, and by an appender of the
-- logger, or by the level and an appender of the root logger.
abbrev pub lets_through : Level → Config → Bool
lets_through level c = not (ltb (to_u8 level) (to_u8 c.level))

abbrev pub has_appender : Config → Bool
has_appender c = not (is_empty c.appenders)

abbrev pub logs_at : Level → Config → Config → Bool
logs_at level c root =
    lets_through level c && (has_appender c || (lets_through level root && has_appender root))

abbrev pub answer : Query → Bytes → (Bytes → Option Config) → Answer
answer (ask_should_log level) name f =
    logs (logs_at level (or_default (f name)) (or_default (f root_name)))
answer ask_level name f = is_level (or_default (f name)).level
answer ask_name name f = is_text name
answer ask_pattern name f = is_text (or_default (f name)).pattern_text

-- A logger that is linked to none.
alone-logs_at :
    (w : World) (id fuel : ℕ) (level : Level)
    → (w.loggers id).root ≡ none
    → should_log (suc fuel) w id level
      ≡ some
          (lets_through level (config_of (w.loggers id)) && has_appender (config_of (w.loggers id)))
unfolding should_log
alone-logs_at w id fuel level alone =
    elim (Bool-cases (ltb (to_u8 level) (to_u8 (w.loggers id).level))) [
      | inl below ↦ rw below refl
      | inr passes ↦ elim (Bool-cases (is_empty (w.loggers id).appenders)) [
        | inr served ↦ rw (passes, served) refl
        | inl bare ↦ rw (passes, bare, alone) refl
      ]
    ]

absorbed : (a b : Bool) → a && b ≡ a && (b || (a && b))
absorbed true true = refl
absorbed true false = refl
absorbed false b = refl

-- A logger of a valid manager asks the root logger behind its own test.
should_log-logs_at :
    (m : Manager) (v : IsValid m) (id : ℕ) (level : Level)
    → id < m.world.logger_count
    → should_log 2 m.world id level
      ≡ some (logs_at level (config_of (m.world.loggers id)) (config_of (m.world.loggers m.root)))
unfolding should_log
should_log-logs_at m v id level h = elim (ℕ_discrete id m.root) [
  | yes same ↦ rw same (
      alone-logs_at m.world m.root 1 level v.root_alone
      ∙ ap some (absorbed (lets_through level root_config) (has_appender root_config)))
  | no other ↦ elim (Bool-cases (ltb (to_u8 level) (to_u8 (m.world.loggers id).level))) [
    | inl below ↦ rw below refl
    | inr passes ↦ elim (Bool-cases (is_empty (m.world.loggers id).appenders)) [
      | inr served ↦ rw (passes, served) refl
      | inl bare ↦
          rw (passes, bare, v.linked id h other) (alone-logs_at m.world m.root 0 level v.root_alone)
    ]
  ]
]
  where
    root_config : Config
    root_config = config_of (m.world.loggers m.root)

-- A method answers what the configurations of the manager say.
ask-answer :
    (query : Query) (name : Bytes) (m : Manager) (v : IsValid m) (id : ℕ)
    → find name m.entries ≡ some id
    → ask query m.world id ≡ some (answer query name (configs m))
unfolding ask
ask-answer (ask_should_log level) name m v id found =
    rw (found, v.root_found, should_log-logs_at m v id level (v.named name id found).0) refl
ask-answer ask_level name m v id found = rw found refl
ask-answer ask_name name m v id found = ap (λ text. some (is_text text)) (v.named name id found).1
ask-answer ask_pattern name m v id found = rw found refl

-- `getLogger` changes no configuration that a client can tell from the default one.
Opens-or_default :
    (name : Bytes) (m : Manager) (id : ℕ) (m' : Manager)
    → Opens name m id m'
    → (other : Bytes) → or_default (configs m' other) ≡ or_default (configs m other)
Opens-or_default name m id m' o other = elim (Bool-cases (equal name other)) [
  | inl same ↦ rw (sym ((equal_iff name other).0 same), o.found) o.own
  | inr differs ↦ ap or_default (rw differs at (o.others default_config other))
]

answer_same :
    (query : Query) (name : Bytes) (f g : Bytes → Option Config)
    → ((other : Bytes) → or_default (f other) ≡ or_default (g other))
    → answer query name f ≡ answer query name g
answer_same (ask_should_log level) name f g same = rw (same name, same root_name) refl
answer_same ask_level name f g same = rw (same name) refl
answer_same ask_name name f g same = refl
answer_same ask_pattern name f g same = rw (same name) refl

module _ (locks : ℕ → Bool) {Tm : Type 0} (time : TimeLibrary Tm) (alloc : Allocator)
    (sites : ℕ → ℕ → Assertion → Site) (words : AreOfWords sites) where
  -- In a release build, and from a valid manager, whatever a client has called before, `shouldLog`,
  -- `getLevel`, `getName` and `getFormatterPattern` of `GetLogger` for a name that is not empty end, and
  -- answer what the same calls on a function from names to configurations say of that name: its level
  -- and pattern, and for a level whether the level of the name lets it through and the name has an
  -- appender, or the root logger's level lets it through as well and that logger has one. The manager
  -- stays valid. The root logger prints the dates of its patterns where assertions may fail.
  pub ask_refines :
      (calls : List (Bytes × Call)) (m : Manager) (query : Query) (name : Bytes)
      → IsValid m
      → RootFits time sites m
      → AreNames calls
      → AreFit time sites calls
      → is_empty name ≡ false
      → (m1 : Manager) × (run locks time alloc Build.release_build sites calls m ≡ some m1)
        × (m2 : Manager) × (ask_on query (get_logger Build.release_build name m1)
            ≡ some (answer query name (replay calls (configs m)), m2))
        × IsValid m2
  unfolding ask_on
  ask_refines calls m query name v fits names sets some_name =
      let (m1, ran, valid, seen) =
        run_refines locks time alloc sites words calls m v fits names sets in
      let (id, m2, got_it, o) = get_logger-Opens name m1 valid some_name in
      let same : answer query name (configs m2) ≡ answer query name (replay calls (configs m)) =
        answer_same query name (configs m2) (configs m1) (Opens-or_default name m1 id m2 o)
        ∙ ap (answer query name) seen in
      (m1, ran, m2, rw (got_it, ask-answer query name m2 o.valid id o.found, same) refl, o.valid)
