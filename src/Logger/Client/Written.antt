-- ===== src/Logger/Client/Written.antt =====
-- Clients that log, from `GetLogger` to the streams (pans/src/Logger/Logger.cc).
use native.Mathlib.Decide.{ℕ_discrete}
use pans.Appender.{Target}
use pans.Base.Int.{ℤ}
use pans.Base.{
  ℕ, suc, ◌<◌, ◌≤◌, ◌≡◌, ◌≢◌, refl, sym, ap, ◌∙◌, Bool, true, false, none, some, [], Bytes,
  is_empty, arith, Option-cases, inl, inr, ltb,
}
use mathlib.Core.Path.{subst}
use pans.Buffer.{Allocator}
use pans.Formatter.{TimeLibrary}
use pans.LogLevel.{Level, to_u8}
use pans.Logger.{World, LoggerImpl, submitted, at_root}
use pans.Logger.Client.Output.{
  own_line, line_of, line_from, own_line_bare, Holds, Printable, HasRoom, Wrote, resulted,
  nothing-Wrote, at_logger,
}
use pans.Logger.Client.Session.{Grown}
use pans.Logger.Client.Spec.{Config, config_of, default_config}
use pans.Logger.Manager.{Manager, find, root_name}
use pans.Logger.Manager.Names.{IsValid}
use pans.LogLine.Assertion.{Site, submit_logging}
use pans.Macros.{Build, Assertion}
use pans.Record.{LogRecordView}

own_line-same :
    (locks : ℕ → Bool) (printed : ℤ → Bytes) (w w' : World) (target : Target) (r : LogRecordView)
    (id : ℕ) (rest : Bytes)
    → w'.loggers id ≡ w.loggers id
    → w'.outputs.impls ≡ w.outputs.impls
    → own_line locks printed w' target r id rest ≡ own_line locks printed w target r id rest
own_line-same locks printed w w' target r id rest same impls_same =
    ap (λ impl. line_of locks printed impl w'.outputs target r rest) same
    ∙ ap
        (λ impls.
          line_of locks printed (w.loggers id) (record w.outputs { impls = impls }) target r rest)
        impls_same

-- A logger with the default configuration leaves every record to the root logger.
own_line_default :
    (locks : ℕ → Bool) (printed : ℤ → Bytes) (w : World) (target : Target) (r : LogRecordView)
    (id : ℕ) (rest : Bytes)
    → (w.loggers id).level ≡ Level.debug
    → is_empty (w.loggers id).appenders ≡ true
    → own_line locks printed w target r id rest ≡ rest
own_line_default locks printed w target r id rest lowest bare =
    rw (lowest, passes (to_u8 r.level), bare) refl
  where
    passes : (n : ℕ) → ltb n 0 ≡ false
    passes n = ground arith

module _ (locks : ℕ → Bool) {Tm : Type 0} (time : TimeLibrary Tm) (alloc : Allocator) (f : Bytes)
    (printed : ℤ → Bytes) (m : Manager) (v : IsValid m) where
  -- The record can be printed, and has room at every logger with appenders.
  pub record Loggable (r : LogRecordView) : Type 0 where
    pub printable : Printable time f printed r
    pub room :
        (id : ℕ)
        → id < m.world.logger_count
        → is_empty (m.world.loggers id).appenders ≡ false
        → HasRoom f printed r (m.world.loggers id)

  module _ (site : ℕ → Assertion → Site) (log_root : ℕ) (r : LogRecordView) (l : Loggable r)
      (m2 : Manager) (g : Grown m m2) (impls_same : m2.world.outputs.impls ≡ m.world.outputs.impls)
      (holds : Holds printed m2.world.cache) where
    root_below : m.root < m.world.logger_count
    root_below = (v.named root_name m.root v.root_found).0

    -- A logger that was there before the session.
    old-Wrote :
        (id fuel : ℕ) (rest : Target → Bytes)
        → id < m.world.logger_count
        → (is_empty (m2.world.loggers id).appenders ≡ true
            → Wrote locks time alloc f printed m2.world rest (
                at_root (m2.world.loggers id).root (submitted m2.world) (λ root.
                  submit_logging locks time alloc Build.release_build site log_root fuel m2.world
                    root r)))
        → Wrote locks time alloc f printed m2.world
            (λ target. own_line locks printed m.world target r id (rest target))
            (submit_logging locks time alloc Build.release_build site log_root
              (suc fuel)
              m2.world
              id
              r)
    old-Wrote id fuel rest below bare =
        resulted locks time alloc f printed
          (at_logger locks time alloc f printed site log_root r l.printable m2.world id holds fuel
            rest
            (λ served. subst (HasRoom f printed r) (sym (g.old id below)) (
              l.room id below
                (sym (ap (λ (l : LoggerImpl). is_empty l.appenders) (g.old id below)) ∙ served)))
            bare)
          (λ target. sym (
            own_line-same locks printed m.world m2.world target r id (rest target) (g.old id below)
              impls_same))
          refl

    root-Wrote :
        (fuel : ℕ)
        → Wrote locks time alloc f printed m2.world
            (λ target. own_line locks printed m.world target r m.root [])
            (submit_logging locks time alloc Build.release_build site log_root
              (suc fuel)
              m2.world
              m2.root
              r)
    root-Wrote fuel = rw g.root_same (
        old-Wrote m.root fuel (λ target. []) root_below
          (λ bare. rw alone (nothing-Wrote locks time alloc f printed m2.world holds)))
      where
        alone : (m2.world.loggers m.root).root ≡ none
        alone = ap (λ id. (m2.world.loggers id).root) (sym g.root_same) ∙ g.valid.root_alone

    -- A logger of the session's names that had none.
    new-Wrote :
        (id : ℕ)
        → m.world.logger_count ≤ id
        → id < m2.world.logger_count
        → Wrote locks time alloc f printed m2.world
            (λ target. own_line locks printed m.world target r m.root [])
            (submit_logging locks time alloc Build.release_build site log_root 3 m2.world id r)
    new-Wrote id above below =
        resulted locks time alloc f printed
          (at_logger locks time alloc f printed site log_root r l.printable m2.world id holds 2
            (λ target. own_line locks printed m.world target r m.root [])
            (λ served. absurd cc (sym bare, served)) (λ bare. rw linked (root-Wrote 1)))
          (λ target. sym (own_line_default locks printed m2.world target r id _ lowest bare)) refl
      where
        config : config_of (m2.world.loggers id) ≡ default_config
        config = g.default id above below

        bare : is_empty (m2.world.loggers id).appenders ≡ true
        bare = ap (λ (c : Config). is_empty c.appenders) config

        lowest : (m2.world.loggers id).level ≡ Level.debug
        lowest = ap (λ (c : Config). c.level) config

        not_root : id ≢ m2.root
        not_root same = absurd (omega (arith, above, root_below, same, g.root_same))

        linked : (m2.world.loggers id).root ≡ some m2.root
        linked = g.valid.linked id below not_root

    root_bare :
        (id : ℕ)
        → id < m.world.logger_count
        → id ≡ m2.root
        → is_empty (m2.world.loggers id).appenders ≡ true
        → is_empty (m.world.loggers m.root).appenders ≡ true
    root_bare id below same bare =
        ap (λ k. is_empty (m.world.loggers k).appenders) (sym (same ∙ g.root_same))
        ∙ ap (λ (l : LoggerImpl). is_empty l.appenders) (sym (g.old id below))
        ∙ bare

    -- A logger of a name that was known.
    known-Wrote :
        (id : ℕ)
        → id < m.world.logger_count
        → Wrote locks time alloc f printed m2.world
            (λ target.
              own_line locks printed m.world target r id
                (own_line locks printed m.world target r m.root []))
            (submit_logging locks time alloc Build.release_build site log_root 3 m2.world id r)
    known-Wrote id below = old-Wrote id 2 _ below (λ bare. elim (ℕ_discrete id m2.root) [
      | yes same ↦
          rw (same, g.valid.root_alone)
            (resulted locks time alloc f printed
              (nothing-Wrote locks time alloc f printed m2.world holds)
              (λ target.
                own_line_bare locks printed m.world target r m.root (root_bare id below same bare))
              refl)
      | no other ↦ rw (g.valid.linked id (omega (arith, below, g.more)) other) (root-Wrote 1)
    ])

    pub submit-Wrote :
        (name : Bytes) (id : ℕ)
        → find name m2.entries ≡ some id
        → Wrote locks time alloc f printed m2.world
            (λ target. line_from locks printed m target r (find name m.entries))
            (submit_logging locks time alloc Build.release_build site log_root 3 m2.world id r)
    submit-Wrote name id found = elim (Option-cases (find name m.entries)) [
      | inl missing ↦
          rw missing (new-Wrote id (g.added name id missing found) (g.valid.named name id found).0)
      | inr (k, known) ↦
          let same : k ≡ id = some_same k (g.keeps name k known) in
          rw (known, same) (known-Wrote id (rw same at (v.named name k known).0))
    ]
      where
        some_same : (k : ℕ) → find name m2.entries ≡ some k → k ≡ id
        some_same k e = let one : some k ≡ some id = sym e ∙ found in cc
