-- ===== src/Logger/Threads/Trace.antt =====
-- What each thread does on a logger (pans/src/Logger/Logger.cc), as calls that are done as a whole.
use pans.Base.{ℕ, not, ◌||◌, is_empty, Bool, true, false, ◌≡◌, some, List, [], ◌∷◌, ◌++◌}
use pans.Logger.{erase}
use pans.Formatter.Pattern.{Formatter}
use pans.Logger.Threads.{
  set_formatter, add_appender, remove_appender, clear_appenders, Job, Change, Event, began, did,
  finished, answered, is_query, is_own, threw, handed_on, changed,
}

-- Between calls, or in one: the formatter and the appenders that it found, and the appenders that it
-- has still to call.
pub data Owed : Type 0 where
  idle : Owed
  owes : Job → Formatter → List ℕ → List ℕ → Owed

-- The calls of a thread: each begins with what the logger is, calls every appender of that once and in
-- order, with the formatter of that, and finishes; or it hands on, where there was no appender; or it
-- throws. A `getFormatter`, or a `shouldLog` where there is an appender, answers at once instead.
pub data Trace : List Event → Owed → Type 0 where
  nothing : Trace [] idle
  begins :
      {events : List Event} (job : Job) (formatter : Formatter) (appenders : List ℕ)
      → Trace events idle
      → Trace (began job formatter appenders ∷ events) (owes job formatter appenders appenders)
  does :
      {events : List Event} {job : Job} {formatter : Formatter} {appenders rest : List ℕ}
      (appender : ℕ)
      → Trace events (owes job formatter appenders (appender ∷ rest))
      → Trace (did job formatter (some appender) ∷ events) (owes job formatter appenders rest)
  finishes :
      {events : List Event} {job : Job} {formatter : Formatter} {appenders : List ℕ}
      → Trace events (owes job formatter appenders [])
      → Trace (finished ∷ events) idle
  answers :
      {events : List Event} {job : Job} {formatter : Formatter} {appenders : List ℕ}
      → is_query job ≡ true
      → is_own job || not (is_empty appenders) ≡ true
      → Trace events (owes job formatter appenders appenders)
      → Trace (answered ∷ events) idle
  hands_on :
      {events : List Event} {job : Job} {formatter : Formatter}
      → Trace events (owes job formatter [] [])
      → Trace (handed_on job ∷ events) idle
  throws :
      {events : List Event} {job : Job} {formatter : Formatter} {appenders rest : List ℕ}
      → Trace events (owes job formatter appenders rest)
      → Trace (threw ∷ events) idle
  changes : {events : List Event} (c : Change) → Trace events idle → Trace (changed c ∷ events) idle

-- The formatter and the appenders that the changes of the events leave, one after the other.
abbrev pub formatter_after : Formatter → List (ℕ × Event) → Formatter
formatter_after formatter [] = formatter
formatter_after formatter ((i, changed (set_formatter given)) ∷ log) = given
formatter_after formatter (_ ∷ log) = formatter_after formatter log

abbrev pub appenders_after : List ℕ → List (ℕ × Event) → List ℕ
appenders_after appenders [] = appenders
appenders_after appenders ((i, changed (add_appender appender)) ∷ log) =
    appenders_after appenders log ++ appender ∷ []
appenders_after appenders ((i, changed (remove_appender appender)) ∷ log) =
    erase appender (appenders_after appenders log)
appenders_after appenders ((i, changed clear_appenders) ∷ log) = []
appenders_after appenders (_ ∷ log) = appenders_after appenders log

abbrev pub is_began : Event → Bool
is_began (began job formatter appenders) = true
is_began _ = false

-- Every call begins with what the changes before it have left.
pub data Found (formatter : Formatter) (appenders : List ℕ) : List (ℕ × Event) → Type 0 where
  no_events : Found formatter appenders []
  finds :
      {log : List (ℕ × Event)} (i : ℕ) (job : Job)
      → Found formatter appenders log
      → Found formatter appenders
          ((i, began job (formatter_after formatter log) (appenders_after appenders log)) ∷ log)
  passes_by :
      {log : List (ℕ × Event)} (i : ℕ) (event : Event)
      → is_began event ≡ false
      → Found formatter appenders log
      → Found formatter appenders ((i, event) ∷ log)

-- The call that a thread is in, if it is in one, began with the formatter and the appenders of now.
pub data Kept (formatter : Formatter) (appenders : List ℕ) : Owed → Type 0 where
  between : Kept formatter appenders idle
  within :
      (job : Job) (rest : List ℕ) → Kept formatter appenders (owes job formatter appenders rest)
