-- ===== src/Logger/Client/Session.antt =====
-- The loggers while clients only log (pans/src/Logger/Logger.cc): `getLogger` adds loggers without
-- appenders, and nothing else changes.
use pans.Base.{
  ℕ, suc, ◌<◌, ◌≤◌, ◌≡◌, refl, ap, ◌∙◌, false, none, some, Bytes, equal, is_empty, arith,
  Bool-cases, Option-cases, inl, inr,
}
use native.Mathlib.Decide.{dec_lt}
use pans.Logger.{LoggerImpl}
use pans.Logger.Client.Refinement.{make_logger-default}
use pans.Logger.Client.Spec.{config_of, default_config}
use pans.Logger.Manager.{Manager, find, register, get_logger, got}
use pans.Logger.Manager.Names.{
  IsValid, make_logger_named, register-IsValid, find_head, find-keeps, update_old, update_new,
}
use pans.Macros.{Build}

-- The manager with more loggers, which have the default configuration.
pub record Grown (m m' : Manager) : Type 0 where
  pub valid : IsValid m'
  pub root_same : m'.root ≡ m.root
  pub more : m.world.logger_count ≤ m'.world.logger_count
  pub old : (id : ℕ) → id < m.world.logger_count → m'.world.loggers id ≡ m.world.loggers id
  pub default :
      (id : ℕ)
      → m.world.logger_count ≤ id
      → id < m'.world.logger_count
      → config_of (m'.world.loggers id) ≡ default_config
  pub keeps :
      (name : Bytes) (id : ℕ) → find name m.entries ≡ some id → find name m'.entries ≡ some id
  pub added :
      (name : Bytes) (id : ℕ)
      → find name m.entries ≡ none
      → find name m'.entries ≡ some id
      → m.world.logger_count ≤ id

pub Grown-same : (m : Manager) → IsValid m → Grown m m
Grown-same m v = record {
  valid = v;
  root_same = refl;
  more = omega arith;
  old = λ id below. refl;
  default = λ id above below. absurd (omega arith);
  keeps = λ name id e. e;
  added = λ name id missing e. absurd cc;
}

module _ (m m' : Manager) (g : Grown m m') (name : Bytes) (impl : LoggerImpl)
    (missing : find name m'.entries ≡ none) (named_so : impl.name ≡ name)
    (config : config_of impl ≡ default_config) where
  abbrev place : ℕ
  place = m'.world.logger_count

  default-register :
      (id : ℕ)
      → m.world.logger_count ≤ id
      → id < suc place
      → config_of ((register name impl m').world.loggers id) ≡ default_config
  default-register id above below = elim (dec_lt id place) [
    | yes before ↦
        ap config_of (update_old m'.world.loggers place _ id before) ∙ g.default id above before
    | no last ↦
        let here : id ≡ place = omega arith in
        rw here (ap config_of (update_new m'.world.loggers place _) ∙ config)
  ]

  added-register :
      (other : Bytes) (id : ℕ)
      → find other m.entries ≡ none
      → find other (register name impl m').entries ≡ some id
      → m.world.logger_count ≤ id
  added-register other id unknown e = elim (Bool-cases (equal name other)) [
    | inl same ↦ new_place (rw same at e)
    | inr differs ↦ g.added other id unknown (rw differs at e)
  ]
    where
      new_place : some place ≡ some id → m.world.logger_count ≤ id
      new_place e = let is_id : place ≡ id = cc in omega (arith, g.more, is_id)

  Grown-register : Grown m (register name impl m')
  Grown-register = record {
    valid = register-IsValid m' g.valid name impl missing named_so;
    root_same = g.root_same;
    more = omega (arith, g.more);
    old = λ id below.
        update_old m'.world.loggers place _ id (omega (arith, g.more, below)) ∙ g.old id below;
    default = default-register;
    keeps = λ other id e. find-keeps name place m'.entries missing other id (g.keeps other id e);
    added = added-register;
  }

-- `getLogger` gives the logger of the name, and touches neither the outputs nor the thread's cache.
pub record Gets (m m' : Manager) (name : Bytes) (id : ℕ) (m2 : Manager) : Type 0 where
  pub grown : Grown m m2
  pub found : find name m2.entries ≡ some id
  pub outputs_same : m2.world.outputs ≡ m'.world.outputs
  pub cache_same : m2.world.cache ≡ m'.world.cache

pub get_logger-Grown :
    (m m' : Manager) (name : Bytes)
    → Grown m m'
    → is_empty name ≡ false
    → (id : ℕ) × (m2 : Manager) × (get_logger Build.release_build name m' ≡ got (some id) m2)
      × Gets m m' name id m2
unfolding get_logger
get_logger-Grown m m' name g some_name = elim (Option-cases (find name m'.entries)) [
  | inl missing ↦
      let (impl, made, named_so, unlinked) = make_logger_named Build.release_build name some_name in
      (
        m'.world.logger_count,
        register name impl m',
        rw (some_name, missing, made) refl,
        record {
          grown =
              Grown-register m m' g name impl missing named_so
                (make_logger-default name impl some_name made);
          found = find_head name m'.world.logger_count m'.entries;
          outputs_same = refl;
          cache_same = refl;
        },
      )
  | inr (id, known) ↦ (
    id,
    m',
    rw (some_name, known) refl,
    record { grown = g; found = known; outputs_same = refl; cache_same = refl },
  )
]
