-- ===== src/Logger/Manager/Links.antt =====
-- The loggers of a `LoggerManager` (pans/src/Logger/Logger.cc) are linked one step deep, so that
-- `shouldLog`, `submit`, `flush` and `sync` follow one link at most.
use native.Mathlib.Decide.{ℕ_discrete}
use pans.Appender.{Outputs, make_stdout_appender, add_impl, stdout}
use pans.Base.{
  ℕ, ◌<◌, ◌≡◌, refl, Option, none, some, arith, inl, inr, Bool-cases, equal_iff, ◌∙◌, [], ◌∷◌,
  equal,
}
use pans.Formatter.{empty_cache}
use pans.Logger.{LoggerImpl}
use pans.Logger.Manager.{Manager, make_manager, root_name}
use pans.Logger.Manager.Names.{IsValid, make_logger_named}
use pans.Macros.{Build}

-- The new manager, with the standard output appender at its root logger.
pub make_manager-IsValid :
    (build : Build) (o : Outputs)
    → (m : Manager) × (make_manager build o ≡ some m)
      × IsValid m
      × ((m.world.loggers m.root).appenders ≡ o.impl_count ∷ [])
unfolding make_manager make_stdout_appender
make_manager-IsValid build o =
    let (impl, made_so, named_so, unlinked) = make_logger_named build root_name refl in
    let root_impl : LoggerImpl = record impl { appenders = o.impl_count ∷ [] } in
    let m : Manager = record {
      world = record {
        loggers = λ _. root_impl;
        logger_count = 1;
        outputs = with_stdout;
        cache = empty_cache;
        failed = [];
      };
      entries = (root_name, 0) ∷ [];
      root = 0;
    } in
    (
      m,
      rw made_so refl,
      record {
        named = λ name id e. elim (Bool-cases (equal root_name name)) [
          | inl same ↦ (ground arith, named_so ∙ (equal_iff root_name name).0 same)
          | inr differs ↦ absurd (nothing (rw differs at e))
        ];
        root_found = refl;
        root_alone = unlinked;
        linked = λ id below other. absurd (other (omega arith));
      },
      refl,
    )
  where
    with_stdout : Outputs
    with_stdout = add_impl stdout o

    nothing : {id : ℕ} → ◌≡◌ {A = Option ℕ} none (some id) → ⊥
    nothing e = cc

-- A logger of a valid manager is the root one, which is linked to none, or it is linked to that.
pub at_most_one_link :
    {m : Manager} (v : IsValid m) (id : ℕ)
    → id < m.world.logger_count
    → (root : ℕ) → (m.world.loggers id).root ≡ some root
    → (m.world.loggers root).root ≡ none
at_most_one_link {m} v id h root e = elim (ℕ_discrete id m.root) [
  | yes same ↦ absurd (clash (rw same at e))
  | no other ↦ rw (target (v.linked id h other)) v.root_alone
]
  where
    clash : (m.world.loggers m.root).root ≡ some root → ⊥
    clash p = cc (v.root_alone, p)

    target : (m.world.loggers id).root ≡ some m.root → root ≡ m.root
    target p = cc (e, p)
