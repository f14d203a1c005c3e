-- ===== src/Logger/Client/After.antt =====
-- What a method of `Logger` (pans/src/Logger/Logger.cc) leaves of the manager and of the configurations.
use mathlib.Core.Bool.{false≢true}
use pans.Appender.{update}
use pans.Base.{
  ℕ, ◌≡◌, ◌≢◌, refl, sym, ap, ◌∙◌, false, some, Bytes, equal, equal_iff, ◌==◌, ==_iff, Bool-cases,
  Option-cases, inl, inr, arith,
}
use pans.Logger.{LoggerImpl, World}
use pans.Logger.Client.{Call}
use pans.Logger.Client.Method.{Performs}
use pans.Logger.Client.Spec.{Config, assign, config_of, configs}
use pans.Logger.Manager.{Manager, find}
use pans.Logger.Manager.Names.{IsValid, find-injective}

pub update_at : (f : ℕ → LoggerImpl) (id : ℕ) (impl : LoggerImpl) → update f id impl id ≡ impl
update_at f id impl = ground arith

pub update_apart :
    (f : ℕ → LoggerImpl) (id : ℕ) (impl : LoggerImpl) (j : ℕ) → id ≢ j → update f id impl j ≡ f j
update_apart f id impl j h = ground arith

-- A part of the loggers that a method leaves alone.
kept :
    {B : Type 0} (part : LoggerImpl → B) (f : ℕ → LoggerImpl) (id : ℕ) (impl : LoggerImpl) (j : ℕ)
    → part impl ≡ part (f id)
    → part (update f id impl j) ≡ part (f j)
kept part f id impl j same = elim (Bool-cases (id == j)) [
  | inl here ↦ rw here (same ∙ ap (λ k. part (f k)) ((==_iff id j).0 here))
  | inr other ↦ rw other refl
]

module _ {called : Call} {c : Config} {id : ℕ} (m : Manager) (w' : World)
    (p : Performs called c id m.world w') (v : IsValid m) where
  abbrev pub after : Manager
  after = record m { world = w' }

  pub name_kept : (j : ℕ) → (w'.loggers j).name ≡ (m.world.loggers j).name
  name_kept j =
      ap (λ (l : LoggerImpl). l.name) (p.changed j)
      ∙ kept (λ l. l.name) m.world.loggers id p.impl j p.named_so

  root_kept : (j : ℕ) → (w'.loggers j).root ≡ (m.world.loggers j).root
  root_kept j =
      ap (λ (l : LoggerImpl). l.root) (p.changed j)
      ∙ kept (λ l. l.root) m.world.loggers id p.impl j p.linked_so

  pub after-IsValid : IsValid after
  after-IsValid = record {
    named = λ name j e.
        let (below, known) = v.named name j e in (omega (arith, p.counted), name_kept j ∙ known);
    root_found = v.root_found;
    root_alone = root_kept m.root ∙ v.root_alone;
    linked = λ j below other. root_kept j ∙ v.linked j (omega (arith, p.counted)) other;
  }

  pub configs-after :
      (name : Bytes)
      → find name m.entries ≡ some id
      → (other : Bytes) → configs after other ≡ assign name c (configs m) other
  configs-after name found other = elim (Bool-cases (equal name other)) [
    | inl same ↦
        rw (same, rw ((equal_iff name other).0 same) at found)
          (ap (λ (l : LoggerImpl). some (config_of l))
              (p.changed id ∙ update_at m.world.loggers id p.impl)
            ∙ ap some p.configured)
    | inr differs ↦ elim (Option-cases (find other m.entries)) [
      | inl missing ↦ rw (differs, missing) refl
      | inr (j, known) ↦
          rw (differs, known)
            (ap (λ (l : LoggerImpl). some (config_of l))
              (p.changed j ∙ update_apart m.world.loggers id p.impl j (apart j known differs)))
    ]
  ]
    where
      apart : (j : ℕ) → find other m.entries ≡ some j → equal name other ≡ false → id ≢ j
      apart j known differs same = false≢true (
          sym differs
          ∙ (equal_iff name other).1 (find-injective m v name other j (found ∙ ap some same) known))
