-- ===== src/Logger/Manager/Names.antt =====
-- Names and loggers of `LoggerManager` (pans/src/Logger/Logger.cc).
use pans.Base.{
  ℕ, suc, ◌⊎◌, ◌<◌, ◌≡◌, ◌≢◌, refl, sym, ap, ◌∙◌, false, none, some, List, [], ◌∷◌, Bytes, equal,
  equal_iff, is_empty, arith, Bool-cases, Option-cases, inl, inr,
}
use native.Mathlib.Decide.{dec_lt}
use pans.Appender.{update}
use pans.Formatter.Pattern.{constructed, Formatter, make_formatter, format_item_factory}
use pans.LogLevel.{Level}
use pans.Logger.{LoggerImpl}
use pans.Logger.Manager.{
  Manager, make_logger, default_log_pattern, find, root_name, got, register, get_logger,
}
use pans.Macros.{Build}

-- The map leads each name to a logger of that name, "root" to the root logger, and all loggers but
-- the root one are linked to that.
pub record IsValid (m : Manager) : Type 0 where
  pub named :
      (name : Bytes) (id : ℕ)
      → find name m.entries ≡ some id
      → (id < m.world.logger_count) × ((m.world.loggers id).name ≡ name)
  pub root_found : find root_name m.entries ≡ some m.root
  pub root_alone : (m.world.loggers m.root).root ≡ none
  pub linked :
      (id : ℕ) → id < m.world.logger_count → id ≢ m.root → (m.world.loggers id).root ≡ some m.root

-- The default pattern parses, in both builds.
default_formatter :
    (build : Build)
    → (formatter : Formatter) × (make_formatter build default_log_pattern
        ≡ constructed formatter [])
unfolding make_formatter format_item_factory
default_formatter Build.release_build = (_, refl)
default_formatter Build.debug_build = (_, refl)

-- A logger is made for every name that is not empty; it is linked to none yet.
pub make_logger_named :
    (build : Build) (name : Bytes)
    → is_empty name ≡ false
    → (impl : LoggerImpl) × (make_logger build name ≡ some impl)
      × (impl.name ≡ name)
      × (impl.root ≡ none)
unfolding make_logger
make_logger_named build name e =
    let (formatter, parsed) = default_formatter build in
    let impl : LoggerImpl = record {
      name = name;
      level = Level.debug;
      formatter = formatter;
      appenders = [];
      root = none;
    } in
    (impl, rw (e, parsed) refl, refl, refl)

pub find_head :
    (name : Bytes) (id : ℕ) (entries : List (Bytes × ℕ))
    → find name ((name, id) ∷ entries) ≡ some id
find_head name id entries = rw ((equal_iff name name).1 refl) refl

-- Names that were known keep their loggers.
pub find-keeps :
    (name : Bytes) (place : ℕ) (entries : List (Bytes × ℕ))
    → find name entries ≡ none
    → (other : Bytes) (id : ℕ) → find other entries ≡ some id
    → find other ((name, place) ∷ entries) ≡ some id
find-keeps name place entries fresh other id e = elim (Bool-cases (equal name other)) [
  | inl same ↦ absurd (clash (rw ((equal_iff name other).0 same) at fresh))
  | inr differs ↦ rw differs e
]
  where
    clash : find other entries ≡ none → ⊥
    clash missing = cc (e, missing)

-- A name that is new is not that of the root logger.
pub not_root_name :
    (name : Bytes) (m : Manager)
    → IsValid m
    → find name m.entries ≡ none
    → equal name root_name ≡ false
not_root_name name m v fresh = elim (Bool-cases (equal name root_name)) [
  | inl same ↦ absurd (no_root (rw ((equal_iff name root_name).0 same) at fresh))
  | inr differs ↦ differs
]
  where
    no_root : find root_name m.entries ≡ none → ⊥
    no_root missing = cc (v.root_found, missing)

-- The heap after a registration, at the new place and at the others.
pub update_old :
    (loggers : ℕ → LoggerImpl) (place : ℕ) (impl : LoggerImpl) (id : ℕ)
    → id < place
    → update loggers place impl id ≡ loggers id
update_old loggers place impl id h = ground arith

pub update_new :
    (loggers : ℕ → LoggerImpl) (place : ℕ) (impl : LoggerImpl)
    → update loggers place impl place ≡ impl
update_new loggers place impl = ground arith

module _ (m : Manager) (v : IsValid m) (name : Bytes) (impl : LoggerImpl)
    (fresh : find name m.entries ≡ none) (named_so : impl.name ≡ name) where
  open v use {named, root_found, root_alone, linked}

  abbrev place : ℕ
  place = m.world.logger_count

  abbrev m' : Manager
  m' = register name impl m

  pub root_old : m.root < place
  root_old = (named root_name m.root root_found).0

  -- An entry of the larger map is the new one or an old one.
  find-register :
      (other : Bytes) (id : ℕ)
      → find other m'.entries ≡ some id
      → ((other ≡ name) × (id ≡ place)) ⊎ (find other m.entries ≡ some id)
  find-register other id e = elim (Bool-cases (equal name other)) [
    | inl same ↦ inl (sym ((equal_iff name other).0 same), cc (rw same at e))
    | inr differs ↦ inr (rw differs at e)
  ]

  named-register :
      (other : Bytes) (id : ℕ)
      → find other m'.entries ≡ some id
      → (id < suc place) × ((m'.world.loggers id).name ≡ other)
  named-register other id e = elim (find-register other id e) [
    | inl (same, here) ↦ (
      omega arith,
      rw (here, same)
          (ap (λ (l : LoggerImpl). l.name) (update_new m.world.loggers place _) ∙ named_so),
    )
    | inr old ↦
        let (below, known) = named other id old in
        (
          omega arith,
          ap (λ (l : LoggerImpl). l.name) (update_old m.world.loggers place _ id below) ∙ known,
        )
  ]

  pub linked-register :
      (id : ℕ) → id < suc place → id ≢ m.root → (m'.world.loggers id).root ≡ some m.root
  linked-register id h other = elim (dec_lt id place) [
    | yes below ↦
        ap (λ (l : LoggerImpl). l.root) (update_old m.world.loggers place _ id below)
        ∙ linked id below other
    | no last ↦
        let here : id ≡ place = omega arith in
        rw here (ap (λ (l : LoggerImpl). l.root) (update_new m.world.loggers place _))
  ]

  pub register-IsValid : IsValid m'
  register-IsValid = record {
    named = named-register;
    root_found = rw (not_root_name name m v fresh) root_found;
    root_alone =
        ap (λ (l : LoggerImpl). l.root) (update_old m.world.loggers place _ m.root root_old)
        ∙ root_alone;
    linked = linked-register;
  }

-- What `getLogger` promises for a name that is not empty.
pub record Gives (name : Bytes) (m : Manager) (id : ℕ) (m' : Manager) : Type 0 where
  pub valid : IsValid m'
  pub found : find name m'.entries ≡ some id
  pub keeps :
      (other : Bytes) (old : ℕ) → find other m.entries ≡ some old → find other m'.entries ≡ some old
  pub root_kept : m'.root ≡ m.root

-- `getLogger` of a name that is not empty gives a logger, in both builds: the one that the map has
-- for the name, or a new one that the map has for it from then on; the manager stays valid, and
-- names that were known keep their loggers.
pub get_logger-Gives :
    (build : Build) (name : Bytes) (m : Manager)
    → IsValid m
    → is_empty name ≡ false
    → (id : ℕ) × (m' : Manager) × (get_logger build name m ≡ got (some id) m') × Gives name m id m'
unfolding get_logger
get_logger-Gives build name m v e = elim (Option-cases (find name m.entries)) [
  | inl missing ↦
      let (impl, made, named_so, unlinked) = make_logger_named build name e in
      (
        m.world.logger_count,
        register name impl m,
        rw (e, missing, made) refl,
        record {
          valid = register-IsValid m v name impl missing named_so;
          found = find_head name m.world.logger_count m.entries;
          keeps = find-keeps name m.world.logger_count m.entries missing;
          root_kept = refl;
        },
      )
  | inr (id, known) ↦ (
    id,
    m,
    rw (e, known) refl,
    record { valid = v; found = known; keeps = λ other old h. h; root_kept = refl },
  )
]

-- The same name gives the same logger again, and the manager stays as it is.
get_logger_again :
    (build : Build) (name : Bytes) (m : Manager) (id : ℕ)
    → is_empty name ≡ false
    → find name m.entries ≡ some id
    → get_logger build name m ≡ got (some id) m
unfolding get_logger
get_logger_again build name m id e known = rw (e, known) refl

-- Two names of the map with one logger are one name.
pub find-injective :
    (m : Manager) (v : IsValid m) (a b : Bytes) (id : ℕ)
    → find a m.entries ≡ some id
    → find b m.entries ≡ some id
    → a ≡ b
find-injective m v a b id p q = sym (v.named a id p).1 ∙ (v.named b id q).1
