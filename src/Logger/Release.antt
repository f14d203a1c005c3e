-- ===== src/Logger/Release.antt =====
-- `Logger::Impl::flush` and `sync` (pans/src/Logger/Logger.cc) end on loggers that are linked one deep.
use pans.Base.{ℕ, ◌≡◌, refl, Bool, none, some, is_empty, Bool-cases, Option-cases, inl, inr}
use pans.Appender.{Outputs, Locked, unlocked}
use pans.Logger.{World, flush_each, for_appenders}

-- `flush` and `sync` follow one link at most.
pub for_appenders-total :
    (locks : ℕ → Bool) (call : ℕ → Outputs → Locked) (w : World) (id : ℕ)
    → ((root : ℕ) → (w.loggers id).root ≡ some root → (w.loggers root).root ≡ none)
    → (locked : Locked) × (for_appenders locks call 2 w id ≡ some locked)
unfolding for_appenders
for_appenders-total locks call w id ends = elim (Bool-cases (is_empty (w.loggers id).appenders)) [
  | inr served ↦ (flush_each locks call (w.loggers id).appenders w.outputs, rw served refl)
  | inl bare ↦ elim (Option-cases (w.loggers id).root) [
    | inl alone ↦ (unlocked w.outputs, rw (bare, alone) refl)
    | inr (root, linked) ↦ elim (Bool-cases (is_empty (w.loggers root).appenders)) [
      | inr served ↦ (
        flush_each locks call (w.loggers root).appenders w.outputs,
        rw (bare, linked, served) refl,
      )
      | inl also_bare ↦ (unlocked w.outputs, rw (bare, linked, also_bare, ends root linked) refl)
    ]
  ]
]
