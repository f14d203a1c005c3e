-- ===== src/Logger/Client/Method.antt =====
-- One call of a public method of `Logger` (pans/src/Logger/Logger.cc), in a release build.
use mathlib.Core.Path.{subst}
use pans.Appender
use pans.Appender.{update, Locked, unlocked, system_error}
use pans.Base.{
  ℕ, ◌<◌, ◌≡◌, refl, sym, ap, ◌∙◌, Bool, Option, none, some, [], ◌∷◌, ◌++◌, Bytes, List,
  if◌then◌else◌, Option-cases, inl, inr, arith, ◌⊎◌,
}
use pans.Buffer.{Allocator}
use pans.Formatter.{TimeLibrary}
use pans.Formatter.Pattern.{
  Formatter, Constructed, constructed, invalid_argument, construction_aborted, make_formatter,
}
use pans.Formatter.Release.{IsBuilt, make_formatter-IsBuilt}
use pans.LogLine.Assertion.{Site}
use pans.Logger.{
  LoggerImpl, World, set_logger, erase, install_formatter, set_formatter, add_appender,
  remove_appender, clear_appenders,
}
use pans.Logger.Client.{
  Call, set_level_to, set_pattern, add, remove, clear, flush_all, sync_all, log, perform, log_all,
  after_called, after_locked, and_then,
}
use pans.Logger.Client.Records.{log_all-Kept, submit_record-Kept}
use pans.Logger.Client.Spec.{Config, is_accepted, apply, config_of}
use pans.Logger.Manager.{Manager}
use pans.Logger.Manager.Links.{at_most_one_link}
use pans.Logger.Manager.Names.{IsValid}
use pans.Logger.Release.{for_appenders-total}
use pans.Macros.{Build, Assertion, null_appender}

-- Only `setFormatter` gives a logger a formatter, which is that of the pattern.
abbrev pub Installs : Call → Formatter → Type 0
Installs (set_pattern pattern_text) formatter =
    (failed : List Assertion) × (make_formatter Build.release_build pattern_text
      ≡ constructed formatter failed)
Installs _ formatter = ⊥

-- One method: the logger's configuration becomes `c`, its name and its link stay, and no other logger
-- changes.
pub record Performs (call : Call) (c : Config) (id : ℕ) (w w' : World) : Type 0 where
  pub impl : LoggerImpl
  pub counted : w'.logger_count ≡ w.logger_count
  pub changed : (j : ℕ) → w'.loggers j ≡ update w.loggers id impl j
  pub named_so : impl.name ≡ (w.loggers id).name
  pub linked_so : impl.root ≡ (w.loggers id).root
  pub configured : config_of impl ≡ c
  pub formatter_so : (impl.formatter ≡ (w.loggers id).formatter) ⊎ Installs call impl.formatter

-- A world whose loggers are as they were.
unchanged :
    (call : Call) (id : ℕ) (w w' : World)
    → w'.loggers ≡ w.loggers
    → w'.logger_count ≡ w.logger_count
    → Performs call (config_of (w.loggers id)) id w w'
unchanged call id w w' same counted = record {
  impl = w.loggers id;
  counted = counted;
  changed = λ j. ap (λ (f : ℕ → LoggerImpl). f j) same ∙ update_same w.loggers id j;
  named_so = refl;
  linked_so = refl;
  configured = refl;
  formatter_so = inl refl;
}
  where
    update_same : (f : ℕ → LoggerImpl) (i j : ℕ) → f j ≡ update f i (f i) j
    update_same f i j = ground arith

-- A method on a logger, and the world afterwards.
abbrev pub Runs : Call → World → Option World → Config → ℕ → Type 0
Runs call w result c id = (w' : World) × (result ≡ some w') × Performs call c id w w'

only_one : {w w' : World} → some w ≡ some w' → w ≡ w'
only_one same = cc

ran_so :
    {call : Call} {w w' : World} {result : Option World} {c : Config} {id : ℕ}
    → Runs call w result c id
    → result ≡ some w'
    → Performs call c id w w'
ran_so {call} {w} {c = c} {id = id} (w1, ran, p) again =
    subst (Performs call c id w) (only_one (sym ran ∙ again)) p

installed :
    (w : World) (id : ℕ) (pattern_text : Bytes) (result : Constructed)
    → IsBuilt pattern_text result
    → make_formatter Build.release_build pattern_text ≡ result
    → Runs
        (set_pattern pattern_text)
        w
        (after_called (install_formatter id w result))
        (if is_accepted result
          then record (config_of (w.loggers id)) { pattern_text = pattern_text }
          else config_of (w.loggers id))
        id
unfolding install_formatter
installed w id pattern_text (constructed formatter failed) built made = (
  _,
  refl,
  record {
    impl = record (w.loggers id) { formatter = formatter };
    counted = refl;
    changed = λ j. refl;
    named_so = refl;
    linked_so = refl;
    configured = λ i. record (config_of (w.loggers id)) { pattern_text = built i };
    formatter_so = inr (failed, made);
  },
)
installed w id pattern_text (invalid_argument failed) built made =
    (_, refl, unchanged (set_pattern pattern_text) id w _ refl refl)
installed w id pattern_text (construction_aborted failed) built made = absurd built

-- A method that writes the logger, and leaves its name, its link and its formatter.
written :
    (call : Call) (w : World) (id : ℕ) (impl : LoggerImpl)
    → impl.name ≡ (w.loggers id).name
    → impl.root ≡ (w.loggers id).root
    → impl.formatter ≡ (w.loggers id).formatter
    → Runs call w (some (set_logger id impl w)) (config_of impl) id
written call w id impl named_so linked_so formatter_so = (
  _,
  refl,
  record {
    impl = impl;
    counted = refl;
    changed = λ j. refl;
    named_so = named_so;
    linked_so = linked_so;
    configured = refl;
    formatter_so = inl formatter_so;
  },
)

emptied :
    (call : Call) (w : World) (id : ℕ) (locked : Locked)
    → Runs call w (after_locked w (some locked)) (config_of (w.loggers id)) id
emptied call w id (unlocked o) = (_, refl, unchanged call id w _ refl refl)
emptied call w id (system_error o) = (_, refl, unchanged call id w _ refl refl)

-- A method behind records that changed no logger.
behind :
    {call : Call} {id : ℕ} {w w1 w' : World}
    → w1.loggers ≡ w.loggers
    → w1.logger_count ≡ w.logger_count
    → Performs call (apply call (config_of (w1.loggers id))) id w1 w'
    → Performs call (apply call (config_of (w.loggers id))) id w w'
behind {call} {id} loggers counted p = record {
  impl = p.impl;
  counted = p.counted ∙ counted;
  changed = λ j. p.changed j ∙ ap (λ f. update f id p.impl j) loggers;
  named_so = p.named_so ∙ ap (λ (f : ℕ → LoggerImpl). (f id).name) loggers;
  linked_so = p.linked_so ∙ ap (λ (f : ℕ → LoggerImpl). (f id).root) loggers;
  configured = p.configured ∙ ap (λ (f : ℕ → LoggerImpl). apply call (config_of (f id))) loggers;
  formatter_so = elim p.formatter_so [
    | inl same ↦ inl (same ∙ ap (λ (f : ℕ → LoggerImpl). (f id).formatter) loggers)
    | inr new ↦ inr new
  ];
}

module _ (locks : ℕ → Bool) {Tm : Type 0} (time : TimeLibrary Tm) (alloc : Allocator)
    (site : ℕ → Assertion → Site) where
  -- The method itself, behind the records of assertions that fail before it.
  pub set_formatter-Runs :
      (pattern_text : Bytes) (id : ℕ) (w : World)
      → Runs
          (set_pattern pattern_text)
          w
          (after_called (set_formatter Build.release_build id pattern_text w))
          (apply (set_pattern pattern_text) (config_of (w.loggers id)))
          id
  unfolding set_formatter
  set_formatter-Runs pattern_text id w =
      installed w id pattern_text (make_formatter Build.release_build pattern_text)
        (make_formatter-IsBuilt pattern_text) refl

  pub add_none-Runs :
      (id : ℕ) (w : World)
      → Runs
          (add none)
          w
          (after_called (add_appender Build.release_build id none w))
          (config_of (w.loggers id))
          id
  unfolding add_appender
  add_none-Runs id w = (_, refl, unchanged (add none) id w _ refl refl)

  -- A method whose records come first, where it ends.
  after_records :
      (root : ℕ) (failed : List Assertion) {call : Call} {id : ℕ} (w : World) {w' : World}
      (again : World → Option World)
      → ((w1 : World) → Runs call w1 (again w1) (apply call (config_of (w1.loggers id))) id)
      → and_then again (log_all locks time alloc Build.release_build site root 3 failed w) ≡ some w'
      → Performs call (apply call (config_of (w.loggers id))) id w w'
  after_records root failed w again runs ran =
      elim (Option-cases (log_all locks time alloc Build.release_build site root 3 failed w)) [
        | inl ended ↦ absurd cc (rw ended at ran)
        | inr (w1, logged) ↦
            let kept =
              log_all-Kept locks time alloc site root w failed 3 w (refl, refl) w1 logged in
            behind kept.0 kept.1 (ran_so (runs w1) (rw logged at ran))
      ]

  -- What a method has done where it ends.
  pub perform-Performs :
      (call : Call) (id : ℕ) (m : Manager) {w' : World}
      → IsValid m
      → id < m.world.logger_count
      → perform locks time alloc Build.release_build site m.root call id m.world ≡ some w'
      → Performs call (apply call (config_of (m.world.loggers id))) id m.world w'
  unfolding perform add_appender remove_appender clear_appenders
  perform-Performs (set_level_to level) id m v below ran =
      ran_so
        (written (set_level_to level) m.world id (record (m.world.loggers id) { level = level })
          refl refl refl)
        ran
  perform-Performs (set_pattern pattern_text) id m v below ran =
      after_records m.root _ m.world _ (set_formatter-Runs pattern_text id) ran
  perform-Performs (add none) id m v below ran =
      after_records m.root (null_appender ∷ []) m.world _ (add_none-Runs id) ran
  perform-Performs (add (some appender)) id m v below ran =
      let impl = m.world.loggers id in
      ran_so
        (written (add (some appender)) m.world id
          (record impl { appenders = impl.appenders ++ appender ∷ [] }) refl refl refl)
        ran
  perform-Performs (remove appender) id m v below ran =
      let impl = m.world.loggers id in
      ran_so
        (written (remove appender) m.world id
          (record impl { appenders = erase appender impl.appenders }) refl refl refl)
        ran
  perform-Performs clear id m v below ran =
      ran_so
        (written clear m.world id (record (m.world.loggers id) { appenders = [] }) refl refl refl)
        ran
  perform-Performs flush_all id m v below ran =
      let (locked, e) =
        for_appenders-total locks (Appender.flush locks) m.world id (at_most_one_link v id below) in
      ran_so (rw e (emptied flush_all m.world id locked)) ran
  perform-Performs sync_all id m v below ran =
      let (locked, e) =
        for_appenders-total locks (Appender.sync locks) m.world id (at_most_one_link v id below) in
      ran_so (rw e (emptied sync_all m.world id locked)) ran
  perform-Performs (log r) id m v below ran =
      let kept =
        submit_record-Kept locks time alloc site m.root m.world m.world id r (refl, refl) ran in
      unchanged (log r) id m.world _ kept.0 kept.1
