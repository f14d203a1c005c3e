-- ===== src/Logger/Threads/Replay.antt =====
-- What the threads share of a logger of pans/src/Logger/Logger.cc is what the changes leave, one after
-- the other, and each call finds that.
use pans.Base.Turns.{note, own}
use pans.Base.{ℕ, ◌≡◌, refl, sym, ap, Option, List, [], ◌∷◌, ◌++◌, drop, get_elem?}
use pans.Formatter.Pattern.{Formatter}
use pans.LogLevel.{Level}
use pans.Logger.{erase}
use pans.Logger.Threads.{
  did, handed_on, changed, threw, finished, Pc, outside, wants_shared, testing, looping, leaving,
  passing, wants_unique, changing, leaving_unique, Shared, Event, Move, answered, undefined,
  should_log_below, call_should_log, call_get_formatter, answer_it, reenters, submit_below,
  call_submit, call_flush, call_sync, call_set_level, call_change, lock_shared, no_appenders,
  hand_on, format_throws, start_loop, call_appender, appender_throws, end_loop, unlock_shared,
  lock_unique, do_change, unlock_unique, System, initial, Runs, start, turn, set_formatter,
  add_appender, remove_appender, clear_appenders,
}
use pans.Logger.Threads.Held.{At}
use pans.Logger.Threads.Snapshot.{Runs-Valid}
use pans.Logger.Threads.Trace.{
  Owed, Trace, formatter_after, appenders_after, Found, no_events, finds, passes_by, Kept, between,
  within,
}

module _ (given : Formatter) (at_first : List ℕ) where
  record Replayed (log : List (ℕ × Event)) (formatter : Formatter) (appenders : List ℕ)
      : Type 0 where
    its_formatter : formatter ≡ formatter_after given log
    its_appenders : appenders ≡ appenders_after at_first log
    found : Found given at_first log

  Move-Replayed :
      {i : ℕ} {s after : Shared} {p q : Pc} {event : Option Event} (log : List (ℕ × Event))
      → Move i s p event after q
      → Replayed log s.formatter s.appenders
      → Replayed (note i event log) after.formatter after.appenders
  Move-Replayed log (submit_below view below) r = r
  Move-Replayed log (call_submit view passes) r = r
  Move-Replayed log call_flush r = r
  Move-Replayed log call_sync r = r
  Move-Replayed log (should_log_below level below) r = r
  Move-Replayed log (call_should_log level passes) r = r
  Move-Replayed log call_get_formatter r = r
  Move-Replayed log (call_set_level level) r = r
  Move-Replayed log (call_change c) r = r
  Move-Replayed {i = i} log (lock_shared job free) r = record {
    its_formatter = r.its_formatter;
    its_appenders = r.its_appenders;
    found = rw (r.its_formatter, r.its_appenders) (finds i job r.found);
  }
  Move-Replayed {i = i} log (no_appenders job shared empty) r = record {
    its_formatter = r.its_formatter;
    its_appenders = r.its_appenders;
    found = passes_by i (handed_on job) refl r.found;
  }
  Move-Replayed log (hand_on job) r = r
  Move-Replayed {i = i} log (answer_it job query now) r = record {
    its_formatter = r.its_formatter;
    its_appenders = r.its_appenders;
    found = passes_by i answered refl r.found;
  }
  Move-Replayed log (reenters view more) r = r
  Move-Replayed {i = i} log (format_throws view more) r = record {
    its_formatter = r.its_formatter;
    its_appenders = r.its_appenders;
    found = passes_by i threw refl r.found;
  }
  Move-Replayed log (start_loop job work more) r = r
  Move-Replayed {i = i} {s = s} log (call_appender job formatter k end more) r = record {
    its_formatter = r.its_formatter;
    its_appenders = r.its_appenders;
    found = passes_by i (did job formatter (get_elem? s.appenders k)) refl r.found;
  }
  Move-Replayed {i = i} log (appender_throws job formatter k end more it) r = record {
    its_formatter = r.its_formatter;
    its_appenders = r.its_appenders;
    found = passes_by i threw refl r.found;
  }
  Move-Replayed {i = i} log (end_loop job formatter k end last) r = record {
    its_formatter = r.its_formatter;
    its_appenders = r.its_appenders;
    found = passes_by i finished refl r.found;
  }
  Move-Replayed log unlock_shared r = r
  Move-Replayed log (lock_unique c free nobody) r = r
  Move-Replayed {i = i} log (do_change (set_formatter formatter)) r = record {
    its_formatter = refl;
    its_appenders = r.its_appenders;
    found = passes_by i (changed (set_formatter formatter)) refl r.found;
  }
  Move-Replayed {i = i} log (do_change (add_appender appender)) r = record {
    its_formatter = r.its_formatter;
    its_appenders = ap (λ l. l ++ appender ∷ []) r.its_appenders;
    found = passes_by i (changed (add_appender appender)) refl r.found;
  }
  Move-Replayed {i = i} log (do_change (remove_appender appender)) r = record {
    its_formatter = r.its_formatter;
    its_appenders = ap (erase appender) r.its_appenders;
    found = passes_by i (changed (remove_appender appender)) refl r.found;
  }
  Move-Replayed {i = i} log (do_change clear_appenders) r = record {
    its_formatter = r.its_formatter;
    its_appenders = refl;
    found = passes_by i (changed clear_appenders) refl r.found;
  }
  Move-Replayed log unlock_unique r = r

  Runs-Replayed :
      {level : Level} {log : List (ℕ × Event)} {s : System}
      → Runs (initial level given at_first) log s
      → Replayed log s.shared.formatter s.shared.appenders
  Runs-Replayed start = record { its_formatter = refl; its_appenders = refl; found = no_events }
  Runs-Replayed (turn i {log} r m) = Move-Replayed log m (Runs-Replayed r)

-- What a thread at a place is in.
At-Kept :
    (formatter : Formatter) (appenders : List ℕ) (p : Pc) (events : List Event)
    → At formatter appenders p events
    → (owed : Owed) × Trace events owed × Kept formatter appenders owed
At-Kept formatter appenders (testing job) events a = (_, a, within job appenders)
At-Kept formatter appenders (looping job found k end) events (same, all, past, a) =
    (_, a, rw same (within job (drop k appenders)))
At-Kept formatter appenders outside events a = (_, a, between)
At-Kept formatter appenders (wants_shared job) events a = (_, a, between)
At-Kept formatter appenders (undefined job) events a = (_, a, within job appenders)
At-Kept formatter appenders leaving events a = (_, a, between)
At-Kept formatter appenders (passing job) events a = (_, a, between)
At-Kept formatter appenders (wants_unique c) events a = (_, a, between)
At-Kept formatter appenders (changing c) events a = (_, a, between)
At-Kept formatter appenders leaving_unique events a = (_, a, between)

-- However threads use a logger at once, every `submit`, `flush` and `sync` begins with the formatter and
-- the appenders that the changes before it have left, these are not changed while the call is in its
-- loop, and the call does its work on each of those appenders once and in order, with that formatter,
-- never past the end, until it finishes or throws; with no appender it hands itself on.
pub threads_snapshot :
    {level : Level} {formatter : Formatter} {appenders : List ℕ} {log : List (ℕ × Event)}
    {s : System} (i : ℕ)
    → Runs (initial level formatter appenders) log s
    → Found formatter appenders log
      × (owed : Owed) × Trace (own i log) owed
      × Kept (formatter_after formatter log) (appenders_after appenders log) owed
threads_snapshot {formatter = formatter} {appenders = appenders} {log = log} {s = s} i r =
    let v = Runs-Valid r in
    let h = Runs-Replayed formatter appenders r in
    let (owed, done, kept) =
      At-Kept s.shared.formatter s.shared.appenders (s.pc i) (own i log) (v.at i) in
    (h.found, owed, done, rw (sym h.its_formatter, sym h.its_appenders) kept)
