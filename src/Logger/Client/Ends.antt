-- ===== src/Logger/Client/Ends.antt =====
-- The public methods of `Logger` (pans/src/Logger/Logger.cc) end where the root logger prints its dates, in
-- a release build.
use pans.Appender
use pans.Appender.{update, Locked, unlocked, system_error}
use pans.Base.{
  ℕ, ◌<◌, ◌≡◌, ◌≢◌, Option, refl, sym, ap, ◌∙◌, Bool, none, some, List, [], ◌∷◌, inl, inr, ◌==◌,
  ==_iff, Bool-cases,
}
use pans.Buffer.{Allocator}
use pans.Formatter.{TimeLibrary, FormatItem}
use pans.Formatter.Pattern.{Formatter}
use pans.LogLine.Assertion.{Site}
use pans.LogLine.Assertion.Quiet.{DatesFit}
use pans.LogLine.Assertion.Records.{AreWords}
use pans.Logger.{LoggerImpl, World, add_appender}
use pans.Logger.Client.{
  Call, set_level_to, set_pattern, add, remove, clear, flush_all, sync_all, log, perform, log_all,
  after_locked, and_then,
}
use pans.Logger.Client.After.{update_at, update_apart}
use pans.Logger.Client.Method.{Performs, Runs, Installs, set_formatter-Runs, add_none-Runs}
use pans.Logger.Client.Records.{log_all_ends, submit_record_ends}
use pans.Logger.Client.Spec.{Config, apply, config_of}
use pans.Logger.Manager.{Manager}
use pans.Logger.Manager.Links.{at_most_one_link}
use pans.Logger.Manager.Names.{IsValid}
use pans.Logger.Release.{for_appenders-total}
use pans.Macros.{Build, Assertion, null_appender}

-- The places of failed assertions have numbers of machine words.
abbrev pub AreOfWords : (ℕ → ℕ → Assertion → Site) → Type 0
AreOfWords sites =
    (k n : ℕ) (which : Assertion) → AreWords (sites k n which).origin (sites k n which).line

-- Each date is printed there.
abbrev pub FitSites :
    {Tm : Type 0} → TimeLibrary Tm → (ℕ → ℕ → Assertion → Site) → List FormatItem → Type 0
FitSites time sites items =
    (k n : ℕ) (which : Assertion) → DatesFit time (sites k n which).origin.timestamp items

-- A pattern that a call sets has dates that are printed there.
abbrev pub FitCall : {Tm : Type 0} → TimeLibrary Tm → (ℕ → ℕ → Assertion → Site) → Call → Type 0
FitCall time sites call =
    (formatter : Formatter) → Installs call formatter → FitSites time sites formatter.items

abbrev Some : Option World → Type 0
Some result = (w' : World) × (result ≡ some w')

locked_some : (w : World) (locked : Locked) → Some (after_locked w (some locked))
locked_some w (unlocked o) = (_, refl)
locked_some w (system_error o) = (_, refl)

module _ (locks : ℕ → Bool) {Tm : Type 0} (time : TimeLibrary Tm) (alloc : Allocator)
    (site : ℕ → Assertion → Site) where
  after_records_ends :
      (root : ℕ) (failed : List Assertion) {call : Call} {id : ℕ} (w : World)
      (again : World → Option World)
      → ((w1 : World) → Runs call w1 (again w1) (apply call (config_of (w1.loggers id))) id)
      → Some (log_all locks time alloc Build.release_build site root 3 failed w)
      → Some (and_then again (log_all locks time alloc Build.release_build site root 3 failed w))
  after_records_ends root failed w again runs (w1, logged) =
      let (w2, ran, p) = runs w1 in (w2, rw logged ran)

  module _ (id : ℕ) (m : Manager) (v : IsValid m) (below : id < m.world.logger_count)
      (words : (n : ℕ) (which : Assertion) → AreWords (site n which).origin (site n which).line)
      (fits : (n : ℕ) (which : Assertion)
        → DatesFit time
            (site n which).origin.timestamp
            (m.world.loggers m.root).formatter.items) where
    records_end :
        (failed : List Assertion)
        → Some (log_all locks time alloc Build.release_build site m.root 3 failed m.world)
    records_end failed =
        log_all_ends locks time alloc site m.root m.world v.root_alone words fits failed 3 m.world
          (refl, refl)

    pub perform_ends :
        (call : Call)
        → Some (perform locks time alloc Build.release_build site m.root call id m.world)
    unfolding perform add_appender
    perform_ends (set_level_to level) = (_, refl)
    perform_ends (set_pattern pattern_text) =
        after_records_ends m.root _ m.world _
          (set_formatter-Runs locks time alloc site pattern_text id) (records_end _)
    perform_ends (add none) =
        after_records_ends m.root (null_appender ∷ []) m.world _
          (add_none-Runs locks time alloc site id) (records_end (null_appender ∷ []))
    perform_ends (add (some appender)) = (_, refl)
    perform_ends (remove appender) = (_, refl)
    perform_ends clear = (_, refl)
    perform_ends flush_all =
        let (locked, e) =
          for_appenders-total locks (Appender.flush locks) m.world id
            (at_most_one_link v id below) in
        rw e (locked_some m.world locked)
    perform_ends sync_all =
        let (locked, e) =
          for_appenders-total locks (Appender.sync locks) m.world id
            (at_most_one_link v id below) in
        rw e (locked_some m.world locked)
    perform_ends (log r) =
        submit_record_ends locks time alloc site m.root m.world v.root_alone words fits id r
          (at_most_one_link v id below)

-- The root logger prints its dates behind a method too, if that sets no other pattern there.
pub Performs-fits :
    {call : Call} {c : Config} {id : ℕ} {w w' : World} (root : ℕ) (Fits : List FormatItem → Type 0)
    → Performs call c id w w'
    → (id ≡ root → (formatter : Formatter) → Installs call formatter → Fits formatter.items)
    → Fits (w.loggers root).formatter.items
    → Fits (w'.loggers root).formatter.items
Performs-fits {id = id} {w} {w'} root Fits p set fits = elim (Bool-cases (id == root)) [
  | inl here ↦
      let same : id ≡ root = (==_iff id root).0 here in
      let at : w'.loggers root ≡ p.impl =
        p.changed root ∙ ap (update_here p.impl) (sym same) ∙ update_at w.loggers id p.impl in
      elim p.formatter_so [
        | inl old ↦ rw (at, old, same) fits
        | inr new ↦ rw at (set same p.impl.formatter new)
      ]
  | inr other ↦
      let apart : id ≢ root = λ same. absurd cc (other, (==_iff id root).1 same) in
      rw (p.changed root ∙ update_apart w.loggers id p.impl root apart) fits
]
  where
    update_here : LoggerImpl → ℕ → LoggerImpl
    update_here impl j = update w.loggers id impl j
