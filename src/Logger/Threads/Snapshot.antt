-- ===== src/Logger/Threads/Snapshot.antt =====
-- However threads use a logger of pans/src/Logger/Logger.cc at once, each call does its work on the
-- logger as it was when it took the mutex.
use pans.Base.Turns.{is_owner_self, is_owner-other, owner_is, update_pc, note, own, add}
use pans.Base.{
  ℕ, suc, true, ◌≡◌, refl, sym, ap, ◌∙◌, Option, none, some, List, [], ◌∷◌, arith, is_empty, length,
  drop, get_elem?-drop, ◌<◌, ◌++◌, get_elem?, drop-length,
}
use mathlib.Core.Path.{subst}
use pans.Formatter.Pattern.{Formatter}
use pans.Logger.{erase}
use pans.Logger.Threads.{
  did, handed_on, threw, finished, began, flush_job, sync_job, submit_job, Job, Pc, outside,
  wants_shared, testing, looping, leaving, passing, wants_unique, changing, Shared, Event, Move,
  answered, undefined, should_log_job, get_formatter_job, should_log_below, call_should_log,
  call_get_formatter, answer_it, reenters, submit_below, call_submit, call_flush, call_sync,
  call_set_level, call_change, lock_shared, no_appenders, hand_on, format_throws, start_loop,
  call_appender, appender_throws, end_loop, unlock_shared, lock_unique, do_change, unlock_unique,
  System, initial, Runs, start, turn, set_formatter, add_appender, remove_appender, clear_appenders,
}
use pans.Logger.Threads.Held.{
  At, Valid, moved, quiet, rewritten, shared_lock_left, contains-here, contains-behind,
  holds_shared, holds_unique,
}
use pans.Logger.Threads.Trace.{
  idle, owes, Trace, nothing, begins, does, finishes, answers, hands_on, throws, changes,
}
use pans.LogLevel.{Level}

hands_on_empty :
    (job : Job) (formatter : Formatter) (appenders : List ℕ) {events : List Event}
    → is_empty appenders ≡ true
    → Trace events (owes job formatter appenders appenders)
    → Trace (handed_on job ∷ events) idle
hands_on_empty job formatter [] empty t = hands_on t
hands_on_empty job formatter (appender ∷ appenders) empty t = absurd cc

does_next :
    (job : Job) (formatter : Formatter) (appenders : List ℕ) (k : ℕ) {events : List Event}
    → k < length appenders
    → Trace events (owes job formatter appenders (drop k appenders))
    → Trace
        (did job formatter (get_elem? appenders k) ∷ events)
        (owes job formatter appenders (drop (suc k) appenders))
does_next job formatter appenders k {events} more t =
    let (appender, there, split) = get_elem?-drop k appenders (omega (arith, more)) in
    rw there
      (does appender (subst (λ rest. Trace events (owes job formatter appenders rest)) split t))

-- The step of a thread seen by itself.
Move-At :
    {i : ℕ} {s after : Shared} {p q : Pc} {event : Option Event} (events : List Event)
    → Move i s p event after q
    → At s.formatter s.appenders p events
    → At after.formatter after.appenders q (add event events)
Move-At events (submit_below r below) a = a
Move-At events (call_submit r passes) a = a
Move-At events call_flush a = a
Move-At events call_sync a = a
Move-At events (should_log_below level below) a = a
Move-At events (call_should_log level passes) a = a
Move-At events call_get_formatter a = a
Move-At events (call_set_level level) a = a
Move-At events (call_change c) a = a
Move-At events (lock_shared job free) a = begins job _ _ a
Move-At {s = s} events (no_appenders job shared none_there) a =
    hands_on_empty job s.formatter s.appenders none_there a
Move-At events (hand_on job) a = a
Move-At events (answer_it job query now) a = answers query now a
Move-At events (reenters r some_there) a = a
Move-At events (format_throws r some_there) a = throws a
Move-At events (start_loop job work some_there) a = (refl, refl, omega arith, a)
Move-At {s = s} events (call_appender job formatter k end more) (same, all, past, a) =
    (same, all, more, does_next job formatter s.appenders k (omega (arith, all, more)) a)
Move-At events (appender_throws job formatter k end more it) (same, all, past, a) = throws a
Move-At {s = s} events (end_loop job formatter k end last) (same, all, past, a) = finishes (
    subst (λ rest. Trace events (owes job formatter s.appenders rest))
      (drop-length k s.appenders (omega (arith, all, last))) a)
Move-At events unlock_shared a = a
Move-At events (lock_unique c free nobody) a = a
Move-At events (do_change c) a = changes c a
Move-At events unlock_unique a = a

Move-Valid :
    (log : List (ℕ × Event)) (s : System) (i : ℕ) {p q : Pc} {event : Option Event} {after : Shared}
    → Move i s.shared p event after q
    → p ≡ s.pc i
    → At after.formatter after.appenders q (add event (own i log))
    → Valid log s
    → Valid (note i event log) (record { shared = after; pc = update_pc s.pc i q })
Move-Valid log s i (submit_below r below) here done v =
    quiet log s i v none s.shared.level outside outside here refl refl done
Move-Valid log s i (call_submit r passes) here done v =
    quiet log s i v none s.shared.level outside (wants_shared (submit_job r)) here refl refl done
Move-Valid log s i call_flush here done v =
    quiet log s i v none s.shared.level outside (wants_shared flush_job) here refl refl done
Move-Valid log s i call_sync here done v =
    quiet log s i v none s.shared.level outside (wants_shared sync_job) here refl refl done
Move-Valid log s i (should_log_below level below) here done v =
    quiet log s i v none s.shared.level outside outside here refl refl done
Move-Valid log s i (call_should_log level passes) here done v =
    quiet log s i v none s.shared.level outside (wants_shared (should_log_job level)) here refl refl
      done
Move-Valid log s i call_get_formatter here done v =
    quiet log s i v none s.shared.level outside (wants_shared get_formatter_job) here refl refl done
Move-Valid log s i (call_set_level level) here done v =
    quiet log s i v none level outside outside here refl refl done
Move-Valid log s i (call_change c) here done v =
    quiet log s i v none s.shared.level outside (wants_unique c) here refl refl done
Move-Valid log s i (lock_shared job free) here done v =
    moved log s i v (some (began job s.shared.formatter s.shared.appenders))
      (record s.shared { sharers = i ∷ s.shared.sharers }) (testing job)
      (λ j. contains-behind i j s.shared.sharers) (contains-here i s.shared.sharers)
      (λ j other. refl) (v.owning i ∙ sym (ap holds_unique here)) (λ j h. absurd cc (sym free ∙ h))
      (λ j other. v.at j) done
Move-Valid log s i (no_appenders job shared none_there) here done v =
    shared_lock_left log s i v (some (handed_on job)) (testing job) (passing job) here refl refl
      done
Move-Valid log s i (hand_on job) here done v =
    quiet log s i v none s.shared.level (passing job) outside here refl refl done
Move-Valid log s i (answer_it job query now) here done v =
    quiet log s i v (some answered) s.shared.level (testing job) leaving here refl refl done
Move-Valid log s i (reenters r some_there) here done v =
    quiet log s i v none s.shared.level (testing (submit_job r)) (undefined (submit_job r)) here
      refl refl done
Move-Valid log s i (format_throws r some_there) here done v =
    quiet log s i v (some threw) s.shared.level (testing (submit_job r)) leaving here refl refl done
Move-Valid log s i (start_loop job work some_there) here done v =
    quiet log s i v none s.shared.level (testing job)
      (looping job s.shared.formatter 0 (length s.shared.appenders)) here refl refl done
Move-Valid log s i (call_appender job formatter k end more) here done v =
    quiet log s i v (some (did job formatter (get_elem? s.shared.appenders k))) s.shared.level
      (looping job formatter k end) (looping job formatter (suc k) end) here refl refl done
Move-Valid log s i (appender_throws job formatter k end more it) here done v =
    quiet log s i v (some threw) s.shared.level (looping job formatter k end) leaving here refl refl
      done
Move-Valid log s i (end_loop job formatter k end last) here done v =
    quiet log s i v (some finished) s.shared.level (looping job formatter k end) leaving here refl
      refl done
Move-Valid log s i unlock_shared here done v =
    shared_lock_left log s i v none leaving outside here refl refl done
Move-Valid log s i (lock_unique c free nobody) here done v =
    moved log s i v none (record s.shared { owner = some i }) (changing c) (λ j other. refl)
      (v.sharing i ∙ sym (ap holds_shared here)) (λ j other. rw free (is_owner-other i j other))
      (is_owner_self i) (λ j h. nobody) (λ j other. v.at j) done
Move-Valid log s i (do_change (set_formatter formatter)) here done v =
    rewritten log s i v (set_formatter formatter) formatter s.shared.appenders here done
Move-Valid log s i (do_change (add_appender appender)) here done v =
    rewritten log s i v (add_appender appender) s.shared.formatter
      (s.shared.appenders ++ appender ∷ []) here done
Move-Valid log s i (do_change (remove_appender appender)) here done v =
    rewritten log s i v (remove_appender appender) s.shared.formatter
      (erase appender s.shared.appenders) here done
Move-Valid log s i (do_change clear_appenders) here done v =
    rewritten log s i v clear_appenders s.shared.formatter [] here done
Move-Valid log s i unlock_unique here done v =
    moved log s i v none (record s.shared { owner = none }) outside (λ j other. refl)
      (v.sharing i ∙ sym (ap holds_shared here))
      (λ j other.
        rw (owner_is i s.shared.owner (v.owning i ∙ sym (ap holds_unique here)))
          (sym (is_owner-other i j other)))
      refl (λ j h. absurd cc) (λ j other. v.at j) done

pub Runs-Valid :
    {level : Level} {formatter : Formatter} {appenders : List ℕ} {log : List (ℕ × Event)}
    {s : System}
    → Runs (initial level formatter appenders) log s
    → Valid log s
Runs-Valid start = record {
  sharing = λ i. refl;
  owning = λ i. refl;
  alone = λ i h. refl;
  at = λ i. nothing;
}
Runs-Valid (turn i {log} {s} {event} {after} {q} r m) =
    let v = Runs-Valid r in Move-Valid log s i m refl (Move-At (own i log) m (v.at i)) v
