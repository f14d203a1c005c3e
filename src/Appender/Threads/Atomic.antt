-- ===== src/Appender/Threads/Atomic.antt =====
-- However threads use an appender of pans/src/Logger/apender.cc at once, what is done under its mutex is
-- done as a whole.
use pans.Base.Turns.{update_pc, note, update_pc-same, update_pc_cases}
use pans.Appender.{Outputs, Target}
use pans.Appender.Threads.{
  Job, append_job, flush_job, sync_job, Pc, outside, writing, leaving, enter, after_write, Event,
  locked, lock_failed, level_set, System, Move, call_below, call_append, call_flush, call_sync,
  call_set_level, take_lock, throw_up, write_some, write_done, flush_it, sync_it, unlock, Runs,
  start, turn,
}
use pans.Appender.Threads.Finish.{
  is_inside, finish, aside, finish-aside, finish-write, finish-after_write, replay,
}
use pans.Base.{
  ℕ, Bool, true, false, ◌≡◌, refl, sym, ap, ◌∙◌, Option, List, ◌∷◌, Bool-cases, ◌⊎◌, inl, inr,
  arith,
}
use pans.LogLevel.{Level}

enter-inside : (job : Job) → is_inside (enter job) ≡ true
enter-inside (append_job level text) = refl
enter-inside flush_job = refl
enter-inside sync_job = refl

after_write-inside : (level : Level) → is_inside (after_write level) ≡ true
after_write-inside level = ground arith

-- A thread that was inside and is not the one that moved is where it was.
update_pc-inside :
    (pc : ℕ → Pc) (i : ℕ) (q : Pc) (j : ℕ)
    → is_inside (pc i) ≡ false
    → is_inside (pc j) ≡ true
    → update_pc pc i q j ≡ pc j
update_pc-inside pc i q j out at = elim (update_pc_cases pc i q j) [
  | inl (same, moved) ↦ cc (out, at, ap (λ j. is_inside (pc j)) same)
  | inr (other, stayed) ↦ stayed
]

-- A thread inside is the one that got there, or was inside.
inside_after :
    (pc : ℕ → Pc) (i : ℕ) (q : Pc) (j : ℕ)
    → is_inside (update_pc pc i q j) ≡ true
    → ((i ≡ j) × (is_inside q ≡ true)) ⊎ (is_inside (pc j) ≡ true)
inside_after pc i q j at = elim (update_pc_cases pc i q j) [
  | inl (same, moved) ↦ inl (same, ap is_inside (sym moved) ∙ at)
  | inr (other, stayed) ↦ inr (ap is_inside (sym stayed) ∙ at)
]

still_inside :
    (pc : ℕ → Pc) (i : ℕ) (q : Pc) (j : ℕ)
    → is_inside q ≡ false
    → is_inside (update_pc pc i q j) ≡ true
    → is_inside (pc j) ≡ true
still_inside pc i q j stays at = elim (inside_after pc i q j at) [
  | inl (same, enters) ↦ cc
  | inr was ↦ was
]

nobody_after :
    (pc : ℕ → Pc) (i : ℕ) (q : Pc)
    → is_inside q ≡ false
    → ((j : ℕ) → is_inside (pc j) ≡ true → i ≡ j)
    → (j : ℕ) → is_inside (update_pc pc i q j) ≡ false
nobody_after pc i q stays others j = elim (update_pc_cases pc i q j) [
  | inl (same, moved) ↦ ap is_inside moved ∙ stays
  | inr (other, stayed) ↦ elim (Bool-cases (is_inside (pc j))) [
    | inl at ↦ absurd (other (others j at))
    | inr out ↦ ap is_inside stayed ∙ out
  ]
]

module _ (target : Target) (id : ℕ) (o : Outputs) where
  -- The mutex is free, nobody is under it, and the outputs are those of the events one after the other;
  -- or one thread is under it, and they will be when it is done.
  pub data Settled (log : List (ℕ × Event)) (s : System) : Type 0 where
    idle :
        s.held ≡ false
        → ((i : ℕ) → is_inside (s.pc i) ≡ false)
        → s.outputs ≡ replay target id log o
        → Settled log s
    busy :
        (i : ℕ)
        → s.held ≡ true
        → is_inside (s.pc i) ≡ true
        → ((j : ℕ) → is_inside (s.pc j) ≡ true → i ≡ j)
        → finish target (s.pc i) s.outputs ≡ replay target id log o
        → Settled log s

  -- A thread outside takes a step that stays outside.
  aside_step :
      (g : Outputs → Outputs)
      → ((p : Pc) (o' : Outputs) → finish target p (g o') ≡ g (finish target p o'))
      → (log log' : List (ℕ × Event)) → replay target id log' o ≡ g (replay target id log o)
      → (s : System) (i : ℕ) (q : Pc) → is_inside (s.pc i) ≡ false
      → is_inside q ≡ false
      → Settled log s
      → Settled log' (record { outputs = g s.outputs; held = s.held; pc = update_pc s.pc i q })
  aside_step g commutes log log' noted s i q out stays (idle h nobody e) =
      idle h (nobody_after s.pc i q stays (λ j at. absurd cc (nobody j, at))) (ap g e ∙ sym noted)
  aside_step g commutes log log' noted s i q out stays (busy k h at_k unique e) =
      busy k h (rw still at_k) (λ j at. unique j (still_inside s.pc i q j stays at))
        (rw still (commutes (s.pc k) s.outputs ∙ ap g e ∙ sym noted))
    where
      still : update_pc s.pc i q k ≡ s.pc k
      still = update_pc-inside s.pc i q k out at_k

  -- The thread under the mutex takes a step that stays there.
  inside_step :
      (log : List (ℕ × Event)) (s : System) (i : ℕ) (o' : Outputs) (q : Pc)
      → is_inside (s.pc i) ≡ true
      → is_inside q ≡ true
      → finish target q o' ≡ finish target (s.pc i) s.outputs
      → Settled log s
      → Settled log (record { outputs = o'; held = s.held; pc = update_pc s.pc i q })
  inside_step log s i o' q at stays same (idle h nobody e) = absurd cc (nobody i, at)
  inside_step log s i o' q at stays same (busy k h at_k unique e) =
      busy i h (rw (update_pc-same s.pc i q) stays)
        (λ j at_j. elim (inside_after s.pc i q j at_j) [
          | inl (here, _) ↦ here
          | inr was ↦ sym (unique i at) ∙ unique j was
        ])
        (rw (update_pc-same s.pc i q)
          (same ∙ ap (λ k. finish target (s.pc k) s.outputs) (sym (unique i at)) ∙ e))

  take_step :
      (log : List (ℕ × Event)) (s : System) (i : ℕ) (job : Job)
      → s.held ≡ false
      → Settled log s
      → Settled
          ((i, locked job) ∷ log)
          (record { outputs = s.outputs; held = true; pc = update_pc s.pc i (enter job) })
  take_step log s i job clear (busy k h at_k unique e) = cc
  take_step log s i job clear (idle h nobody e) =
      busy i refl (rw (update_pc-same s.pc i (enter job)) (enter-inside job))
        (λ j at_j. elim (inside_after s.pc i (enter job) j at_j) [
          | inl (here, _) ↦ here
          | inr was ↦ absurd cc (nobody j, was)
        ])
        (rw (update_pc-same s.pc i (enter job)) (ap (finish target (enter job)) e))

  unlock_step :
      (log : List (ℕ × Event)) (s : System) (i : ℕ)
      → leaving ≡ s.pc i
      → Settled log s
      → Settled log (record { outputs = s.outputs; held = false; pc = update_pc s.pc i outside })
  unlock_step log s i here (idle h nobody e) = absurd cc (nobody i, ap is_inside here)
  unlock_step log s i here (busy k h at_k unique e) =
      idle refl (nobody_after s.pc i outside refl (λ j at_j. sym k_is_i ∙ unique j at_j))
        (ap (λ p. finish target p s.outputs) (here ∙ ap s.pc (sym k_is_i)) ∙ e)
    where
      at : is_inside (s.pc i) ≡ true
      at = ap is_inside (sym here)

      k_is_i : k ≡ i
      k_is_i = unique i at

  Move-Settled :
      (log : List (ℕ × Event)) (s : System) (i : ℕ) {p q : Pc} {event : Option Event} {held : Bool}
      {o' : Outputs}
      → Move id target s.held s.outputs p event held o' q
      → p ≡ s.pc i
      → Settled log s
      → Settled (note i event log) (record { outputs = o'; held = held; pc = update_pc s.pc i q })
  Move-Settled log s i (call_below level text below) here v =
      aside_step (λ o'. o') (λ p o'. refl) log log refl s i outside (ap is_inside (sym here)) refl v
  Move-Settled log s i (call_append level text passes) here v =
      aside_step (λ o'. o') (λ p o'. refl) log _ refl s i _ (ap is_inside (sym here)) refl v
  Move-Settled log s i call_flush here v =
      aside_step (λ o'. o') (λ p o'. refl) log _ refl s i _ (ap is_inside (sym here)) refl v
  Move-Settled log s i call_sync here v =
      aside_step (λ o'. o') (λ p o'. refl) log _ refl s i _ (ap is_inside (sym here)) refl v
  Move-Settled log s i (call_set_level level) here v =
      aside_step (aside id (level_set level)) (finish-aside target id (level_set level)) log _ refl
        s i outside (ap is_inside (sym here)) refl v
  Move-Settled log s i (take_lock job clear) here v = take_step log s i job clear v
  Move-Settled log s i (throw_up job) here v =
      aside_step (aside id (lock_failed job)) (finish-aside target id (lock_failed job)) log _ refl
        s i outside (ap is_inside (sym here)) refl v
  Move-Settled log s i (write_some level text chunk rest split) here v =
      inside_step log s i _ (writing level rest) (ap is_inside (sym here)) refl
        (finish-write target level chunk rest s.outputs
          ∙ ap (λ t. finish target (writing level t) s.outputs) (sym split)
          ∙ ap (λ p. finish target p s.outputs) here)
        v
  Move-Settled log s i (write_done level) here v =
      inside_step log s i s.outputs (after_write level) (ap is_inside (sym here))
        (after_write-inside level)
        (finish-after_write target level s.outputs ∙ ap (λ p. finish target p s.outputs) here) v
  Move-Settled log s i flush_it here v =
      inside_step log s i _ leaving (ap is_inside (sym here)) refl
        (ap (λ p. finish target p s.outputs) here) v
  Move-Settled log s i sync_it here v =
      inside_step log s i _ leaving (ap is_inside (sym here)) refl
        (ap (λ p. finish target p s.outputs) here) v
  Move-Settled log s i unlock here v = unlock_step log s i here v

  pub Runs-Settled : {log : List (ℕ × Event)} {s : System} → Runs id target o log s → Settled log s
  Runs-Settled start = idle refl (λ i. refl) refl
  Runs-Settled (turn i {log} {s} r m) = Move-Settled log s i m refl (Runs-Settled r)
