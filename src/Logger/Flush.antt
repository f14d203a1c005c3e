-- ===== src/Logger/Flush.antt =====
-- `Logger::Impl::flush` (pans/src/Logger/Logger.cc) over the appenders of a logger.
use mathlib.Core.Path.{subst}
use pans.Appender
use pans.Appender.{
  Outputs, AppenderImpl, Sink, flush_sink, stream_of, Target, stdout, file, on_target,
  flush_unlocked, Locked, unlocked, system_error,
}
use pans.Base.{
  ℕ, suc, ◌≡◌, refl, sym, ◌∙◌, Bool, true, false, Option, some, List, [], ◌∷◌, ◌==◌, ==_iff, length,
  is_empty, Bool-cases, inl, inr, ◌⊎◌,
}
use pans.Logger.{World, flush_each, for_appenders, flush}

-- Every byte of the stream has been handed to the system.
abbrev pub IsFlushed : Sink → Type 0
IsFlushed sink = sink.flushed ≡ length sink.written

abbrev pub AreFlushed : List ℕ → Outputs → Type 0
AreFlushed [] o = Unit
AreFlushed (id ∷ appenders) o = IsFlushed (stream_of (o.impls id).target o) × AreFlushed appenders o

-- A flush of one stream keeps the others flushed.
on_target-IsFlushed :
    (t target : Target) (o : Outputs)
    → IsFlushed (stream_of target o)
    → IsFlushed (stream_of target (on_target flush_sink t o))
on_target-IsFlushed stdout stdout o h = refl
on_target-IsFlushed stdout (file g) o h = h
on_target-IsFlushed (file g) stdout o h = h
on_target-IsFlushed (file f) (file g) o h = elim (Bool-cases (f == g)) [
  | inl same ↦ rw same refl
  | inr other ↦ rw other h
]

on_target-flushed : (t : Target) (o : Outputs) → IsFlushed (stream_of t (on_target flush_sink t o))
on_target-flushed stdout o = refl
on_target-flushed (file g) o = rw ((==_iff g g).1 refl) refl

on_target-impls : (t : Target) (o : Outputs) → (on_target flush_sink t o).impls ≡ o.impls
on_target-impls stdout o = refl
on_target-impls (file g) o = refl

module _ (locks : ℕ → Bool) where
  -- An appender of the list whose mutex cannot be locked.
  abbrev pub SomeFails : List ℕ → Type 0
  SomeFails [] = ⊥
  SomeFails (id ∷ appenders) = (locks id ≡ false) ⊎ SomeFails appenders

  -- What the loop keeps: the appenders, and what was flushed already.
  record Keeps (o o' : Outputs) : Type 0 where
    pub impls : o'.impls ≡ o.impls
    pub flushed :
        (target : Target) → IsFlushed (stream_of target o) → IsFlushed (stream_of target o')

  abbrev Ends : List ℕ → Outputs → Locked → Type 0
  Ends appenders o (unlocked o') = Keeps o o' × AreFlushed appenders o'
  Ends appenders o (system_error o') = SomeFails appenders

  Ends-step :
      (id : ℕ) (appenders : List ℕ) (o : Outputs) (locked : Locked)
      → Ends appenders (flush_unlocked (o.impls id).target o) locked
      → Ends (id ∷ appenders) o locked
  unfolding flush_unlocked
  Ends-step id appenders o (unlocked o') (keeps, flushed) = (
    record {
      impls = keeps.impls ∙ on_target-impls (o.impls id).target o;
      flushed =
          λ target h. keeps.flushed target (on_target-IsFlushed (o.impls id).target target o h);
    },
    (
      subst (λ impls. IsFlushed (stream_of (AppenderImpl.target (impls id)) o'))
          (sym (keeps.impls ∙ on_target-impls (o.impls id).target o))
          (keeps.flushed (o.impls id).target (on_target-flushed (o.impls id).target o)),
      flushed,
    ),
  )
  Ends-step id appenders o (system_error o') fails = inr fails

  flush_each-locked :
      (id : ℕ) (appenders : List ℕ) (o : Outputs)
      → locks id ≡ true
      → flush_each locks (Appender.flush locks) (id ∷ appenders) o
        ≡ flush_each locks (Appender.flush locks) appenders (flush_unlocked (o.impls id).target o)
  unfolding flush_each Appender.flush
  flush_each-locked id appenders o locked = rw locked refl

  flush_each-failed :
      (id : ℕ) (appenders : List ℕ) (o : Outputs)
      → locks id ≡ false
      → flush_each locks (Appender.flush locks) (id ∷ appenders) o ≡ system_error o
  unfolding flush_each Appender.flush
  flush_each-failed id appenders o fails = rw fails refl

  flush_each-Ends :
      (appenders : List ℕ) (o : Outputs)
      → Ends appenders o (flush_each locks (Appender.flush locks) appenders o)
  unfolding flush_each
  flush_each-Ends [] o = (record { impls = refl; flushed = λ target h. h }, tt)
  flush_each-Ends (id ∷ appenders) o = elim (Bool-cases (locks id)) [
    | inl locked ↦ subst (Ends (id ∷ appenders) o) (sym (flush_each-locked id appenders o locked)) (
        Ends-step id appenders o
          (flush_each locks (Appender.flush locks) appenders (flush_unlocked (o.impls id).target o))
          (flush_each-Ends appenders (flush_unlocked (o.impls id).target o)))
    | inr fails ↦
        subst (Ends (id ∷ appenders) o) (sym (flush_each-failed id appenders o fails)) (inl fails)
  ]

  -- What `flush` of a logger with appenders of its own ends with.
  abbrev pub Flushes : List ℕ → Option Locked → Type 0
  Flushes appenders (some (unlocked o')) = AreFlushed appenders o'
  Flushes appenders (some (system_error o')) = SomeFails appenders
  Flushes appenders _ = ⊥

  Ends-Flushes :
      (appenders : List ℕ) (o : Outputs) (locked : Locked)
      → Ends appenders o locked
      → Flushes appenders (some locked)
  Ends-Flushes appenders o (unlocked o') e = e.1
  Ends-Flushes appenders o (system_error o') e = e

  -- `flush` of a logger that has appenders returns, and then every byte of each of their streams has
  -- been handed to the system, or it throws, and then the mutex of one of them could not be locked.
  pub flush-Flushes :
      (fuel : ℕ) (w : World) (id : ℕ)
      → is_empty (w.loggers id).appenders ≡ false
      → Flushes (w.loggers id).appenders (flush locks (suc fuel) w id)
  unfolding for_appenders
  flush-Flushes fuel w id served = rw served (
      Ends-Flushes (w.loggers id).appenders w.outputs _
        (flush_each-Ends (w.loggers id).appenders w.outputs))
