-- ===== src/Logger/Samples.antt =====
-- Loggers for the runs and the theorems at concrete values.
use pans.Appender.{Outputs, stdout, empty_sink}
use pans.Base.{
  ℕ, ◌<◌, Bool, true, Option, none, some, [], ◌∷◌, ◌≡◌, refl, Bytes, codes, equal, equal_iff,
  Bool-cases, inl, inr, arith,
}
use pans.Formatter.{FormatItem, empty_cache}
use pans.LogLevel.{Level}
use pans.Logger.{LoggerImpl}
use pans.Logger.Manager.{Manager, find, register, root_name}
use pans.Logger.Manager.Names.{IsValid}

-- One appender, to the standard output, at INFO.
abbrev pub outputs : Outputs
outputs = record {
  cout = empty_sink;
  error_output = [];
  files = λ _. empty_sink;
  file_count = 0;
  impls = λ _. record { target = stdout; level = Level.info };
  impl_count = 1;
}

-- A logger at WARN that prints the hour and the message.
abbrev pub root_logger : LoggerImpl
root_logger = record {
  name = root_name;
  level = Level.warn;
  formatter = record {
    pattern_text = codes "%d{%H}%m";
    items = FormatItem.date_time (codes "%H") ∷ FormatItem.message ∷ [];
  };
  appenders = 0 ∷ [];
  root = none;
}

abbrev pub manager : Manager
manager = record {
  world = record {
    loggers = λ _. root_logger;
    logger_count = 1;
    outputs = outputs;
    cache = empty_cache;
    failed = [];
  };
  entries = (root_name, 0) ∷ [];
  root = 0;
}

pub manager-IsValid : IsValid manager
manager-IsValid = record {
  named = known;
  root_found = refl;
  root_alone = refl;
  linked = λ id small other. absurd (omega arith);
}
  where
    nothing : {id : ℕ} → ◌≡◌ {A = Option ℕ} none (some id) → ⊥
    nothing e = cc

    single : {id : ℕ} → ◌≡◌ {A = Option ℕ} (some 0) (some id) → id < 1
    single e = ground arith

    known :
        (name : Bytes) (id : ℕ)
        → find name manager.entries ≡ some id
        → (id < 1) × ((manager.world.loggers id).name ≡ name)
    known name id h = elim (Bool-cases (equal root_name name)) [
      | inl same ↦ (single (rw same at h), (equal_iff root_name name).0 same)
      | inr other ↦ absurd (nothing (rw other at h))
    ]

abbrev pub works : ℕ → Bool
works _ = true

abbrev pub net : Bytes
net = codes "net"

-- With the logger "net" at place 1, which has no appenders.
abbrev pub both : Manager
both = register net (record root_logger { name = net; appenders = [] }) manager
