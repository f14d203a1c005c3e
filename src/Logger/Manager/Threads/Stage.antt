-- ===== src/Logger/Manager/Threads/Stage.antt =====
-- What a thread in `getLogger` (pans/src/Logger/Logger.cc) knows of the manager, by its place.
use pans.Base.{
  ℕ, ◌<◌, ◌≡◌, sym, ap, ◌∙◌, Bool, true, false, none, some, List, [], ◌∷◌, Bytes, equal, equal_iff,
  is_empty, Bool-cases, inl, inr, arith,
}
use pans.Logger.{LoggerImpl, World}
use pans.Logger.Manager.{Manager, find}
use pans.Logger.Manager.Names.{
  IsValid, find-keeps, not_root_name, root_old, linked-register, update_old,
}
use pans.Logger.Manager.Threads.{
  Pc, outside, wants, finding, creating, entering, leaving, unwinding, Event, returned, Shared,
  place_logger, emplace,
}

-- The places under the mutex.
abbrev pub holds : Pc → Bool
holds outside = false
holds (wants name) = false
holds _ = true

-- What a thread at a place knows of the manager.
abbrev pub Stage : Manager → Pc → Type 0
Stage m (wants name) = is_empty name ≡ false
Stage m (finding name) = is_empty name ≡ false
Stage m (creating name) = (is_empty name ≡ false) × (find name m.entries ≡ none)
Stage m (entering name id) =
    (find name m.entries ≡ none) × (id < m.world.logger_count) × ((m.world.loggers id).name ≡ name)
Stage m (leaving name id) = find name m.entries ≡ some id
Stage m _ = Unit

pub Stage-free : (m m' : Manager) (p : Pc) → holds p ≡ false → Stage m p → Stage m' p
Stage-free m m' outside free s = s
Stage-free m m' (wants name) free s = s
Stage-free m m' (finding name) free s = absurd cc
Stage-free m m' (creating name) free s = absurd cc
Stage-free m m' (entering name id) free s = absurd cc
Stage-free m m' (leaving name id) free s = absurd cc
Stage-free m m' unwinding free s = absurd cc

-- The loggers change, but no name.
pub Stage-with_world :
    (m : Manager) (w : World)
    → w.logger_count ≡ m.world.logger_count
    → ((id : ℕ) → (w.loggers id).name ≡ (m.world.loggers id).name)
    → (p : Pc) → Stage m p
    → Stage (record m { world = w }) p
Stage-with_world m w counted same outside s = s
Stage-with_world m w counted same (wants name) s = s
Stage-with_world m w counted same (finding name) s = s
Stage-with_world m w counted same (creating name) s = s
Stage-with_world m w counted same (entering name id) (fresh, below, named_so) =
    (fresh, omega (arith, counted, below), same id ∙ named_so)
Stage-with_world m w counted same (leaving name id) s = s
Stage-with_world m w counted same unwinding s = s

-- Every logger that was returned is the one of its name.
abbrev pub Known : List (Bytes × ℕ) → List (ℕ × Event) → Type 0
Known entries [] = Unit
Known entries ((i, returned name id) ∷ log) = (find name entries ≡ some id) × Known entries log

pub Known-emplace :
    (name : Bytes) (place : ℕ) (entries : List (Bytes × ℕ)) (log : List (ℕ × Event))
    → find name entries ≡ none
    → Known entries log
    → Known ((name, place) ∷ entries) log
Known-emplace name place entries [] fresh k = tt
Known-emplace name place entries ((i, returned other id) ∷ log) fresh (e, k) =
    (find-keeps name place entries fresh other id e, Known-emplace name place entries log fresh k)

-- The manager stays valid when a logger is placed, and when it enters the map.
pub placed-IsValid :
    (s : Shared) (name : Bytes) (impl : LoggerImpl)
    → IsValid s.manager
    → find name s.manager.entries ≡ none
    → impl.name ≡ name
    → IsValid (place_logger impl s).manager
placed-IsValid s name impl v fresh named_so = record {
  named = λ other id e.
      let (below, known) = v.named other id e in
      (omega (arith, below), ap (λ (l : LoggerImpl). l.name) (old id below) ∙ known);
  root_found = v.root_found;
  root_alone =
      ap (λ (l : LoggerImpl). l.root)
        (old s.manager.root (root_old s.manager v name impl fresh named_so))
      ∙ v.root_alone;
  linked = linked-register s.manager v name impl fresh named_so;
}
  where
    old :
        (id : ℕ)
        → id < s.manager.world.logger_count
        → (place_logger impl s).manager.world.loggers id ≡ s.manager.world.loggers id
    old id below = update_old s.manager.world.loggers s.manager.world.logger_count _ id below

pub emplaced-IsValid :
    (s : Shared) (name : Bytes) (id : ℕ)
    → IsValid s.manager
    → Stage s.manager (entering name id)
    → IsValid (emplace name id s).manager
emplaced-IsValid s name id v (fresh, below, named_so) = record {
  named = λ other k e. elim (Bool-cases (equal name other)) [
    | inl same ↦ here other k ((equal_iff name other).0 same) (rw same at e)
    | inr differs ↦ v.named other k (rw differs at e)
  ];
  root_found = rw (not_root_name name s.manager v fresh) v.root_found;
  root_alone = v.root_alone;
  linked = v.linked;
}
  where
    here :
        (other : Bytes) (k : ℕ)
        → name ≡ other
        → some id ≡ some k
        → (k < s.manager.world.logger_count) × ((s.manager.world.loggers k).name ≡ other)
    here other k same e = let is_k : id ≡ k = cc in rw (sym is_k) (below, named_so ∙ same)
