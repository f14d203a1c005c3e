-- ===== src/Logger/Client/Refinement.antt =====
-- Clients of the loggers (pans/src/Logger/Logger.cc) and the specification that they can rely on.
use mathlib.Core.Path.{fun_ext}
use pans.Base.{
  ℕ, ◌≡◌, refl, sym, ap, ◌∙◌, Bool, false, none, some, List, [], ◌∷◌, Bytes, equal, is_empty,
  length, Bool-cases, Option-cases, inl, inr,
}
use pans.Buffer.{Allocator}
use pans.Formatter.{TimeLibrary}
use pans.Formatter.Pattern.{
  Constructed, constructed, invalid_argument, construction_aborted, make_formatter,
}
use pans.Formatter.Release.{IsBuilt, make_formatter-IsBuilt}
use pans.LogLevel.{Level}
use pans.Logger.{LoggerImpl}
use pans.Logger.Client.{Call, call_on, run}
use pans.LogLine.Assertion.{Site}
use pans.Logger.Client.Ends.{AreOfWords, FitSites, FitCall, perform_ends, Performs-fits}
use pans.Logger.Client.After.{after-IsValid, configs-after}
use pans.Logger.Client.Method.{perform-Performs}
use pans.Logger.Client.Spec.{
  Config, default_config, apply, or_default, assign, replay, config_of, configs,
}
use pans.Logger.Manager.{
  Manager, find, default_log_pattern, make_logger, with_formatter, register, got, get_logger,
  root_name,
}
use pans.Logger.Manager.Names.{
  IsValid, make_logger_named, register-IsValid, find_head, update_old, update_new, find-injective,
}
use pans.Macros.{Build, Assertion}

-- A logger that is made has the default configuration.
with_formatter-default :
    (name : Bytes) (impl : LoggerImpl) (result : Constructed)
    → IsBuilt default_log_pattern result
    → with_formatter name result ≡ some impl
    → config_of impl ≡ default_config
unfolding with_formatter
with_formatter-default name impl (constructed formatter failed) built e =
    ap config_of (sym made)
    ∙ (λ i. record { level = Level.debug; pattern_text = built i; appenders = [] })
  where
    impl' : LoggerImpl
    impl' = record {
      name = name;
      level = Level.debug;
      formatter = formatter;
      appenders = [];
      root = none;
    }

    made : impl' ≡ impl
    made = cc
with_formatter-default name impl (invalid_argument failed) built e = cc
with_formatter-default name impl (construction_aborted failed) built e = cc

pub make_logger-default :
    (name : Bytes) (impl : LoggerImpl)
    → is_empty name ≡ false
    → make_logger Build.release_build name ≡ some impl
    → config_of impl ≡ default_config
unfolding make_logger
make_logger-default name impl some_name made =
    with_formatter-default name impl (make_formatter Build.release_build default_log_pattern)
      (make_formatter-IsBuilt default_log_pattern) (rw some_name at made)

-- What `getLogger` does to the configurations: the name has its own, or the default one from now on.
pub record Opens (name : Bytes) (m : Manager) (id : ℕ) (m' : Manager) : Type 0 where
  pub valid : IsValid m'
  pub found : find name m'.entries ≡ some id
  pub root_formatter : (m'.world.loggers m'.root).formatter ≡ (m.world.loggers m.root).formatter
  pub own : config_of (m'.world.loggers id) ≡ or_default (configs m name)
  pub others :
      (c : Config) (other : Bytes)
      → assign name c (configs m') other ≡ assign name c (configs m) other

register-Opens :
    (name : Bytes) (m : Manager) (impl : LoggerImpl)
    → IsValid m
    → find name m.entries ≡ none
    → impl.name ≡ name
    → config_of impl ≡ default_config
    → Opens name m m.world.logger_count (register name impl m)
register-Opens name m impl v missing named_so config = record {
  valid = register-IsValid m v name impl missing named_so;
  found = find_head name m.world.logger_count m.entries;
  root_formatter =
      ap (λ (l : LoggerImpl). l.formatter)
        (update_old m.world.loggers m.world.logger_count _ m.root
          (v.named root_name m.root v.root_found).0);
  own = rw missing (ap config_of (update_new m.world.loggers m.world.logger_count _) ∙ config);
  others = λ c other. elim (Bool-cases (equal name other)) [
    | inl same ↦ rw same refl
    | inr differs ↦ elim (Option-cases (find other m.entries)) [
      | inl unknown ↦ rw (differs, unknown) refl
      | inr (j, known) ↦
          rw (differs, known)
            (ap (λ (l : LoggerImpl). some (config_of l))
              (update_old m.world.loggers m.world.logger_count _ j (v.named other j known).0))
    ]
  ];
}

pub get_logger-Opens :
    (name : Bytes) (m : Manager)
    → IsValid m
    → is_empty name ≡ false
    → (id : ℕ) × (m' : Manager) × (get_logger Build.release_build name m ≡ got (some id) m')
      × Opens name m id m'
unfolding get_logger
get_logger-Opens name m v some_name = elim (Option-cases (find name m.entries)) [
  | inl missing ↦
      let (impl, made, named_so, unlinked) = make_logger_named Build.release_build name some_name in
      (
        m.world.logger_count,
        register name impl m,
        rw (some_name, missing, made) refl,
        register-Opens name m impl v missing named_so
            (make_logger-default name impl some_name made),
      )
  | inr (id, known) ↦ (
    id,
    m,
    rw (some_name, known) refl,
    record {
      valid = v;
      found = known;
      root_formatter = refl;
      own = rw known refl;
      others = λ c other. refl;
    },
  )
]

-- Every name of the calls is one.
abbrev pub AreNames : List (Bytes × Call) → Type 0
AreNames [] = Unit
AreNames ((name, call) ∷ calls) = (is_empty name ≡ false) × AreNames calls

-- The patterns that the calls set on the root logger have dates that are printed at the sites.
abbrev pub AreFit :
    {Tm : Type 0} → TimeLibrary Tm → (ℕ → ℕ → Assertion → Site) → List (Bytes × Call) → Type 0
AreFit time sites [] = Unit
AreFit time sites ((name, call) ∷ calls) =
    (name ≡ root_name → FitCall time sites call) × AreFit time sites calls

-- So does the root logger.
abbrev pub RootFits : {Tm : Type 0} → TimeLibrary Tm → (ℕ → ℕ → Assertion → Site) → Manager → Type 0
RootFits time sites m = FitSites time sites (m.world.loggers m.root).formatter.items

module _ (locks : ℕ → Bool) {Tm : Type 0} (time : TimeLibrary Tm) (alloc : Allocator)
    (sites : ℕ → ℕ → Assertion → Site) (words : AreOfWords sites) where
  -- One call of a client.
  call_on-replay :
      (k : ℕ) (name : Bytes) (call : Call) (m : Manager)
      → IsValid m
      → RootFits time sites m
      → is_empty name ≡ false
      → (name ≡ root_name → FitCall time sites call)
      → (m' : Manager) × (call_on locks time alloc Build.release_build
            (sites k)
            call
            (get_logger Build.release_build name m)
          ≡ some m')
        × IsValid m'
        × RootFits time sites m'
        × (configs m' ≡ assign name (apply call (or_default (configs m name))) (configs m))
  unfolding call_on
  call_on-replay k name call m v fits some_name sets =
      let (id, opened, got_it, o) = get_logger-Opens name m v some_name in
      let below = (o.valid.named name id o.found).0 in
      let opened_fits : RootFits time sites opened = rw o.root_formatter fits in
      let (w', ran) =
        perform_ends locks time alloc (sites k) id opened o.valid below (words k) (opened_fits k)
          call in
      let p = perform-Performs locks time alloc (sites k) call id opened o.valid below ran in
      (
        record opened { world = w' },
        rw (got_it, ran) refl,
        after-IsValid opened w' p o.valid,
        Performs-fits opened.root (FitSites time sites) p
            (λ at_root. sets (
              find-injective opened o.valid name root_name id o.found
                (o.valid.root_found ∙ ap some (sym at_root))))
            opened_fits,
        fun_ext λ other.
            configs-after opened w' p o.valid name o.found other
            ∙ o.others _ other
            ∙ ap (λ c. assign name (apply call c) (configs m) other) o.own,
      )

  -- In a release build, and from a valid manager, any number of calls on loggers by their names ends, in
  -- a valid manager whose loggers have the configurations that the same calls give to a function from
  -- names to configurations. There a call changes the entry of its name alone, a new name starts with
  -- the default configuration, and a pattern that does not parse, a null appender, logging, `flush` and
  -- `sync` change no configuration. Assertions that fail on the way are logged to the root logger: its
  -- pattern, and those that the calls set there, have dates that the C library prints where assertions
  -- may fail, and the numbers there are machine words. Other loggers may have any pattern.
  pub run_refines :
      (calls : List (Bytes × Call)) (m : Manager)
      → IsValid m
      → RootFits time sites m
      → AreNames calls
      → AreFit time sites calls
      → (m' : Manager) × (run locks time alloc Build.release_build sites calls m ≡ some m')
        × IsValid m'
        × (configs m' ≡ replay calls (configs m))
  unfolding run
  run_refines [] m v fits names sets = (m, refl, v, refl)
  run_refines ((name, call) ∷ calls) m v fits names sets =
      let (m1, called, valid, fits1, seen) =
        call_on-replay (length calls) name call m v fits names.0 sets.0 in
      let (m2, ran, valid', seen') = run_refines calls m1 valid fits1 names.1 sets.1 in
      (m2, rw called ran, valid', seen' ∙ ap (replay calls) seen)
