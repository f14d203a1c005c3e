-- ===== src/Appender/Threads/Sequential.antt =====
-- Threads that share an appender (pans/src/Logger/apender.cc) against the calls one after the other.
use pans.Base.Turns.{note, update_pc_cases, own}
use pans.Appender
use pans.Appender.{
  Outputs, Target, stdout, file, AppenderImpl, is_fatal, write_unlocked, flush_unlocked,
  sync_unlocked, append,
}
use pans.Appender.History.{append_text, flush_one, sync_one, step, run}
use pans.Appender.History
use pans.Appender.Threads.{
  Job, append_job, flush_job, sync_job, Pc, outside, waiting, writing, flushing, syncing, leaving,
  enter, Event, called, locked, lock_failed, level_set, System, Move, Runs, start, turn, call_below,
  call_append, call_flush, call_sync, call_set_level, take_lock, throw_up, write_some, write_done,
  flush_it, sync_it, unlock, after_write,
}
use pans.Appender.Threads.Atomic.{idle, busy, Runs-Settled}
use pans.Appender.Threads.Finish.{finish, replay}
use mathlib.Core.Path.{subst}
use pans.Base.{
  ℕ, Bool, true, false, ◌≡◌, refl, sym, ap, ◌∙◌, Option, none, some, List, [], ◌∷◌, ◌++◌, Bytes,
  ltb, Bool-cases, inl, inr,
}
use pans.LogLevel.{Level, to_u8}

-- Nobody sets the level, and no lock of the mutex throws.
abbrev pub IsSteady : List (ℕ × Event) → Type 0
IsSteady [] = Unit
IsSteady ((i, lock_failed job) ∷ log) = ⊥
IsSteady ((i, level_set level) ∷ log) = ⊥
IsSteady (_ ∷ log) = IsSteady log

IsSteady-before :
    (i : ℕ) (event : Option Event) (log : List (ℕ × Event))
    → IsSteady (note i event log)
    → IsSteady log
IsSteady-before i none log h = h
IsSteady-before i (some (called job)) log h = h
IsSteady-before i (some (locked job)) log h = h
IsSteady-before i (some (lock_failed job)) log h = absurd h
IsSteady-before i (some (level_set level)) log h = absurd h

abbrev pub call_of : ℕ → Job → History.Event
call_of id (append_job level text) = append_text id level text
call_of id flush_job = flush_one id
call_of id sync_job = sync_one id

-- The calls that have taken the mutex, in the order in which they did.
abbrev pub calls : ℕ → List (ℕ × Event) → List History.Event
calls id [] = []
calls id ((i, locked job) ∷ log) = calls id log ++ call_of id job ∷ []
calls id (_ ∷ log) = calls id log

-- What passed the test of the level passes it again.
abbrev Passes : Level → Job → Type 0
Passes own (append_job level text) = ltb (to_u8 level) (to_u8 own) ≡ false
Passes own _ = Unit

abbrev PcPasses : Level → Pc → Type 0
PcPasses own (waiting job) = Passes own job
PcPasses own _ = Unit

abbrev AllPass : Level → List (ℕ × Event) → Type 0
AllPass own [] = Unit
AllPass own ((i, locked job) ∷ log) = Passes own job × AllPass own log
AllPass own (_ ∷ log) = AllPass own log

write_unlocked-impls :
    (target : Target) (text : Bytes) (o : Outputs) → (write_unlocked text target o).impls ≡ o.impls
unfolding write_unlocked
write_unlocked-impls stdout text o = refl
write_unlocked-impls (file h) text o = refl

flush_unlocked-impls : (target : Target) (o : Outputs) → (flush_unlocked target o).impls ≡ o.impls
unfolding flush_unlocked
flush_unlocked-impls stdout o = refl
flush_unlocked-impls (file h) o = refl

sync_unlocked-impls : (target : Target) (o : Outputs) → (sync_unlocked target o).impls ≡ o.impls
unfolding flush_unlocked sync_unlocked
sync_unlocked-impls stdout o = refl
sync_unlocked-impls (file h) o = refl

finish-impls : (target : Target) (p : Pc) (o : Outputs) → (finish target p o).impls ≡ o.impls
finish-impls target (writing level rest) o = elim (Bool-cases (is_fatal level)) [
  | inl dies ↦ rw dies (flush_unlocked-impls target _ ∙ write_unlocked-impls target rest o)
  | inr lives ↦ rw lives (write_unlocked-impls target rest o)
]
finish-impls target flushing o = flush_unlocked-impls target o
finish-impls target syncing o = sync_unlocked-impls target o
finish-impls target outside o = refl
finish-impls target (waiting job) o = refl
finish-impls target leaving o = refl

module _ (id : ℕ) (target : Target) (opens : Bytes → Bool) where
  -- A call under the mutex is the call by itself.
  finish-step :
      (job : Job) (o : Outputs)
      → (o.impls id).target ≡ target
      → Passes (AppenderImpl.level (o.impls id)) job
      → finish target (enter job) o ≡ step (λ _. true) opens (call_of id job) o
  unfolding step append Appender.flush Appender.sync
  finish-step (append_job level text) o same passes = rw (passes, same) refl
  finish-step flush_job o same passes = rw same refl
  finish-step sync_job o same passes = rw same refl

  run-last :
      (events : List History.Event) (event : History.Event) (o : Outputs)
      → run (λ _. true) opens (events ++ event ∷ []) o
        ≡ step (λ _. true) opens event (run (λ _. true) opens events o)
  unfolding run
  run-last [] event o = refl
  run-last (first ∷ events) event o = run-last events event (step (λ _. true) opens first o)

  replay-impls :
      (log : List (ℕ × Event)) (o : Outputs)
      → IsSteady log
      → (replay target id log o).impls ≡ o.impls
  replay-impls [] o steady = refl
  replay-impls ((i, called job) ∷ log) o steady = replay-impls log o steady
  replay-impls ((i, locked job) ∷ log) o steady =
      finish-impls target (enter job) (replay target id log o) ∙ replay-impls log o steady
  replay-impls ((i, lock_failed job) ∷ log) o steady = absurd steady
  replay-impls ((i, level_set level) ∷ log) o steady = absurd steady

  module _ (o : Outputs) (same : (o.impls id).target ≡ target) where
    abbrev own_level : Level
    own_level = (o.impls id).level

    replay-run :
        (log : List (ℕ × Event))
        → IsSteady log
        → AllPass own_level log
        → replay target id log o ≡ run (λ _. true) opens (calls id log) o
    unfolding run
    replay-run [] steady all = refl
    replay-run ((i, called job) ∷ log) steady all = replay-run log steady all
    replay-run ((i, locked job) ∷ log) steady (passes, all) =
        finish-step job (replay target id log o)
          (ap (λ impls. AppenderImpl.target (impls id)) (replay-impls log o steady) ∙ same)
          (subst (λ impls. Passes (AppenderImpl.level (impls id)) job)
            (sym (replay-impls log o steady)) passes)
        ∙ ap (step (λ _. true) opens (call_of id job)) (replay-run log steady all)
        ∙ sym (run-last (calls id log) (call_of id job) o)
    replay-run ((i, lock_failed job) ∷ log) steady all = absurd steady
    replay-run ((i, level_set level) ∷ log) steady all = absurd steady

    -- What a steady run keeps: the level, and that the calls in it pass the test.
    record Kept (log : List (ℕ × Event)) (s : System) : Type 0 where
      pub impls : s.outputs.impls ≡ o.impls
      pub all : AllPass own_level log
      pub places : (i : ℕ) → PcPasses own_level (s.pc i)

    Move-Passes :
        (i : ℕ) (log : List (ℕ × Event)) {held held' : Bool} {o1 o2 : Outputs} {p q : Pc}
        {event : Option Event}
        → Move id target held o1 p event held' o2 q
        → IsSteady (note i event log)
        → o1.impls ≡ o.impls
        → AllPass own_level log
        → PcPasses own_level p
        → (o2.impls ≡ o.impls) × AllPass own_level (note i event log) × PcPasses own_level q
    Move-Passes i log (call_below level text below) steady e all here = (e, all, tt)
    Move-Passes i log (call_append level text passes) steady e all here = (
      e,
      all,
      subst (λ impls. ltb (to_u8 level) (to_u8 (AppenderImpl.level (impls id))) ≡ false) e passes,
    )
    Move-Passes i log call_flush steady e all here = (e, all, tt)
    Move-Passes i log call_sync steady e all here = (e, all, tt)
    Move-Passes i log (call_set_level level) steady e all here = absurd steady
    Move-Passes i log (take_lock job clear) steady e all here = (e, (here, all), entered job)
      where
        entered : (job : Job) → PcPasses own_level (enter job)
        entered (append_job level text) = tt
        entered flush_job = tt
        entered sync_job = tt
    Move-Passes i log (throw_up job) steady e all here = absurd steady
    Move-Passes i log (write_some level text chunk rest split) steady e all here =
        (write_unlocked-impls target chunk _ ∙ e, all, tt)
    Move-Passes i log (write_done level) steady e all here = (e, all, written level)
      where
        written : (level : Level) → PcPasses own_level (after_write level)
        written level = elim (Bool-cases (is_fatal level)) [
          | inl dies ↦ rw dies tt
          | inr lives ↦ rw lives tt
        ]
    Move-Passes i log flush_it steady e all here = (flush_unlocked-impls target _ ∙ e, all, tt)
    Move-Passes i log sync_it steady e all here = (sync_unlocked-impls target _ ∙ e, all, tt)
    Move-Passes i log unlock steady e all here = (e, all, tt)

    Runs-Kept :
        {log : List (ℕ × Event)} {s : System} → Runs id target o log s → IsSteady log → Kept log s
    Runs-Kept start steady = record { impls = refl; all = tt; places = λ i. tt }
    Runs-Kept (turn i {log} {s} {event} {held'} {o'} {q} r m) steady =
        let k = Runs-Kept r (IsSteady-before i event log steady) in
        let (impls, all, here) = Move-Passes i log m steady k.impls k.all (k.places i) in
        record {
          impls = impls;
          all = all;
          places = λ j. elim (update_pc_cases s.pc i q j) [
            | inl (same, at) ↦ rw at here
            | inr (other, at) ↦ rw at (k.places j)
          ];
        }

    -- Where nobody sets the level of an appender, no lock of its mutex throws and it writes to the
    -- target, then whenever no thread holds the mutex, the outputs are those of the calls of the threads
    -- that took it, one after the other in that order.
    pub threads_sequential :
        {log : List (ℕ × Event)} {s : System}
        → Runs id target o log s
        → IsSteady log
        → s.held ≡ false
        → s.outputs ≡ run (λ _. true) opens (calls id log) o
    threads_sequential {log} {s} r steady free = elim (Runs-Settled target id o r) [
      | idle clear nobody e ↦ e ∙ replay-run log steady (Kept.all (Runs-Kept r steady))
      | busy i held at unique e ↦ absurd cc (held, free)
    ]
