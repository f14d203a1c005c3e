-- ===== src/Base/Turns.antt =====
-- Threads that take turns: where each of them stands, and the events with the threads of them.
use Prim.Native.Nat.{ℕ}
use mathlib.Core.Bool.{Bool, true, false}
use mathlib.Core.Path.{◌≡◌, refl, ap}
use mathlib.Core.Logic.{◌≢◌, ◌⊎◌, inl, inr}
use mathlib.Core.List.{List, [], ◌∷◌}
use mathlib.Core.Option.{Option, none, some}
use pans.Base.Tests.{◌==◌, ==_iff, Bool-cases, if◌then◌else◌}

pub ==-same : (i : ℕ) → i == i ≡ true
==-same i = (==_iff i i).1 refl

pub ==-other : (i j : ℕ) → i ≢ j → i == j ≡ false
==-other i j other = elim (Bool-cases (i == j)) [
  | inl same ↦ absurd (other ((==_iff i j).0 same))
  | inr off ↦ off
]

-- The thread that holds a mutex.
abbrev pub is_owner : ℕ → Option ℕ → Bool
is_owner i none = false
is_owner i (some j) = j == i

pub owner_is : (i : ℕ) (owner : Option ℕ) → is_owner i owner ≡ true → owner ≡ some i
owner_is i none at = absurd cc
owner_is i (some j) at = ap some ((==_iff j i).0 at)

pub is_owner_self : (i : ℕ) → is_owner i (some i) ≡ true
is_owner_self i = ==-same i

pub is_owner-other : (i j : ℕ) → i ≢ j → is_owner j (some i) ≡ false
is_owner-other i j other = ==-other i j other

module _ {ℓ} {A : Type ℓ} where
  abbrev pub update_pc : (ℕ → A) → ℕ → A → ℕ → A
  update_pc pc i p j = if i == j then p else pc j

  -- The events, the last one first.
  abbrev pub note : ℕ → Option A → List (ℕ × A) → List (ℕ × A)
  note i none log = log
  note i (some event) log = (i, event) ∷ log

  -- The events of one thread.
  abbrev pub own : ℕ → List (ℕ × A) → List A
  own i [] = []
  own i ((j, event) ∷ log) = let rest = own i log in if j == i then event ∷ rest else rest

  abbrev pub add : Option A → List A → List A
  add none events = events
  add (some event) events = event ∷ events

  pub update_pc-same : (pc : ℕ → A) (i : ℕ) (q : A) → update_pc pc i q i ≡ q
  update_pc-same pc i q = rw ((==_iff i i).1 refl) refl

  -- Where a thread is after a step: at the new place, or where it was.
  pub update_pc_cases :
      (pc : ℕ → A) (i : ℕ) (q : A) (j : ℕ)
      → ((i ≡ j) × (update_pc pc i q j ≡ q)) ⊎ ((i ≢ j) × (update_pc pc i q j ≡ pc j))
  update_pc_cases pc i q j = elim (Bool-cases (i == j)) [
    | inl same ↦ inl ((==_iff i j).0 same, rw same refl)
    | inr other ↦ inr (λ e. cc (other, (==_iff i j).1 e), rw other refl)
  ]

  pub own-note :
      (i : ℕ) (event : Option A) (log : List (ℕ × A))
      → own i (note i event log) ≡ add event (own i log)
  own-note i none log = refl
  own-note i (some event) log = rw ((==_iff i i).1 refl) refl

  pub own-note_other :
      (i j : ℕ) (event : Option A) (log : List (ℕ × A))
      → i ≢ j
      → own j (note i event log) ≡ own j log
  own-note_other i j none log other = refl
  own-note_other i j (some event) log other = elim (Bool-cases (i == j)) [
    | inl same ↦ absurd (other ((==_iff i j).0 same))
    | inr differs ↦ rw differs refl
  ]
