-- ===== src/Appender/Threads/Last.antt =====
-- The record that is being written to a shared appender (pans/src/Logger/apender.cc) is the last one.
use pans.Appender.{Outputs, Target}
use pans.Appender.Threads.{
  append_job, flush_job, sync_job, Pc, writing, Event, locked, System, Move, Runs, start, turn,
  call_below, call_append, call_flush, call_sync, call_set_level, take_lock, throw_up, write_some,
  write_done, flush_it, sync_it, unlock, after_write,
}
use pans.Appender.Threads.Atomic.{idle, busy, Runs-Settled}
use pans.Appender.Threads.Finish.{is_inside}
use pans.Base.Turns.{note, update_pc_cases}
use pans.Base.{
  ℕ, Bool, true, false, ◌≡◌, refl, sym, ap, ◌∙◌, ◌⊎◌, Option, List, [], ◌∷◌, ◌++◌, Bytes,
  append-nil, append_assoc, inl, inr, arith,
}
use pans.LogLevel.{Level}

-- The text of the call that took the mutex last.
abbrev pub last_text : List (ℕ × Event) → Bytes
last_text [] = []
last_text ((i, locked (append_job level text)) ∷ log) = text
last_text ((i, locked flush_job) ∷ log) = []
last_text ((i, locked sync_job) ∷ log) = []
last_text (_ ∷ log) = last_text log

-- What a thread has still to write.
abbrev pub left : Pc → Bytes
left (writing level rest) = rest
left _ = []

abbrev pub IsEnd : Bytes → Bytes → Type 0
IsEnd rest text = (begin : Bytes) × (begin ++ rest ≡ text)

left-after_write : (level : Level) → left (after_write level) ≡ []
left-after_write level = ground arith

nothing_left : (rest text : Bytes) → rest ≡ [] → IsEnd rest text
nothing_left rest text e = (text, ap (λ r. text ++ r) e ∙ append-nil text)

Move-IsEnd :
    {id : ℕ} {target : Target} {held held' : Bool} {o o' : Outputs} {p q : Pc}
    {event : Option Event} (i : ℕ) (log : List (ℕ × Event))
    → Move id target held o p event held' o' q
    → (is_inside p ≡ true → IsEnd (left p) (last_text log))
    → is_inside q ≡ true
    → IsEnd (left q) (last_text (note i event log))
Move-IsEnd i log (call_below level text below) v h = absurd cc
Move-IsEnd i log (call_append level text passes) v h = absurd cc
Move-IsEnd i log call_flush v h = absurd cc
Move-IsEnd i log call_sync v h = absurd cc
Move-IsEnd i log (call_set_level level) v h = absurd cc
Move-IsEnd i log (take_lock (append_job level text) free) v h = ([], refl)
Move-IsEnd i log (take_lock flush_job free) v h = ([], refl)
Move-IsEnd i log (take_lock sync_job free) v h = ([], refl)
Move-IsEnd i log (throw_up job) v h = absurd cc
Move-IsEnd i log (write_some level text chunk rest split) v h =
    let (begin, e) = v refl in
    (begin ++ chunk, append_assoc begin chunk rest ∙ ap (λ t. begin ++ t) (sym split) ∙ e)
Move-IsEnd i log (write_done level) v h = nothing_left _ _ (left-after_write level)
Move-IsEnd i log flush_it v h = nothing_left [] _ refl
Move-IsEnd i log sync_it v h = nothing_left [] _ refl
Move-IsEnd i log unlock v h = absurd cc

-- Only a call that finds the mutex free becomes the last one.
Move-last_text :
    {id : ℕ} {target : Target} {held held' : Bool} {o o' : Outputs} {p q : Pc}
    {event : Option Event} (i : ℕ) (log : List (ℕ × Event))
    → Move id target held o p event held' o' q
    → (held ≡ false) ⊎ (last_text (note i event log) ≡ last_text log)
Move-last_text i log (call_below level text below) = inr refl
Move-last_text i log (call_append level text passes) = inr refl
Move-last_text i log call_flush = inr refl
Move-last_text i log call_sync = inr refl
Move-last_text i log (call_set_level level) = inr refl
Move-last_text i log (take_lock job free) = inl free
Move-last_text i log (throw_up job) = inr refl
Move-last_text i log (write_some level text chunk rest split) = inr refl
Move-last_text i log (write_done level) = inr refl
Move-last_text i log flush_it = inr refl
Move-last_text i log sync_it = inr refl
Move-last_text i log unlock = inr refl

module _ (id : ℕ) (target : Target) (o : Outputs) where
  nobody_inside :
      {log : List (ℕ × Event)} {s : System} (j : ℕ)
      → Runs id target o log s
      → s.held ≡ false
      → is_inside (s.pc j) ≡ false
  nobody_inside j r free = elim (Runs-Settled target id o r) [
    | idle _ nobody e ↦ nobody j
    | busy i held at unique e ↦ absurd cc (held, free)
  ]

  -- Under every interleaving, what a thread under the mutex has still to write is an end of the text of
  -- the call that took it last.
  pub Runs-IsEnd :
      {log : List (ℕ × Event)} {s : System} (j : ℕ)
      → Runs id target o log s
      → is_inside (s.pc j) ≡ true
      → IsEnd (left (s.pc j)) (last_text log)
  Runs-IsEnd j start h = absurd cc
  Runs-IsEnd j (turn i {log} {s} {event} {held'} {o'} {q} r m) h =
      let was = λ (k : ℕ). Runs-IsEnd k r in
      elim (update_pc_cases s.pc i q j) [
        | inl (same, at) ↦ rw at (Move-IsEnd i log m (was i) (ap is_inside (sym at) ∙ h))
        | inr (other, at) ↦ elim (Move-last_text i log m) [
          | inl free ↦ absurd cc (nobody_inside j r free, ap is_inside (sym at) ∙ h)
          | inr kept ↦ rw (at, kept) (was j (ap is_inside (sym at) ∙ h))
        ]
      ]
