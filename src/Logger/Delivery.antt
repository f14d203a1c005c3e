-- ===== src/Logger/Delivery.antt =====
-- Which appenders a record reaches, through `Logger::Impl::submit` (pans/src/Logger/Logger.cc) and
-- `Appender::Impl::append` (pans/src/Logger/apender.cc).
use pans.Appender.{
  stream_of, Outputs, Target, stdout, file, append_to, is_fatal, write_unlocked, flush_unlocked,
}
use pans.Base.{
  ℕ, ◌==◌, ◌≡◌, refl, sym, ap, ◌∙◌, Bool, true, false, not, ◌&&◌, some, List, Bytes, [], ◌∷◌, ◌++◌,
  ltb, if◌then◌else◌, append-nil, append_assoc, arith, inl, inr, Bool-cases,
}
use pans.LogLevel.{Level, to_u8}
use pans.Logger.{deliver}

abbrev pub same_target : Target → Target → Bool
same_target stdout stdout = true
same_target (file g) (file h) = g == h
same_target _ _ = false

-- The appender writes to the target, lets the level through and can be locked.
abbrev pub reaches : (ℕ → Bool) → Outputs → Target → Level → ℕ → Bool
reaches locks o target level id =
    not (ltb (to_u8 level) (to_u8 (o.impls id).level))
    && (locks id && same_target (o.impls id).target target)

abbrev pub if_reached : Bool → Bytes → Bytes
if_reached reached text = if reached then text else []

-- The text once for each appender that reaches the target.
abbrev pub copies : (ℕ → Bool) → Outputs → Target → Level → Bytes → List ℕ → Bytes
copies locks o target level text [] = []
copies locks o target level text (id ∷ appenders) =
    if_reached (reaches locks o target level id) text ++ copies locks o target level text appenders

-- One write, or a write and a flush, seen at a target.
on_target-written :
    (text : Bytes) (flushed : Bool) (t target : Target) (o : Outputs)
    → (stream_of target (
        if flushed
        then flush_unlocked t (write_unlocked text t o)
        else write_unlocked text t o)).written
      ≡ (stream_of target o).written ++ if_reached (same_target t target) text
unfolding write_unlocked flush_unlocked
on_target-written text true stdout stdout o = refl
on_target-written text false stdout stdout o = refl
on_target-written text true stdout (file h) o = sym (append-nil (o.files h).written)
on_target-written text false stdout (file h) o = sym (append-nil (o.files h).written)
on_target-written text true (file g) stdout o = sym (append-nil o.cout.written)
on_target-written text false (file g) stdout o = sym (append-nil o.cout.written)
on_target-written text true (file g) (file h) o = ground (arith, append-nil (o.files h).written)
on_target-written text false (file g) (file h) o = ground (arith, append-nil (o.files h).written)

on_target-impls :
    (text : Bytes) (flushed : Bool) (t : Target) (o : Outputs)
    → (if flushed
        then flush_unlocked t (write_unlocked text t o)
        else write_unlocked text t o).impls
      ≡ o.impls
unfolding write_unlocked flush_unlocked
on_target-impls text true stdout o = refl
on_target-impls text false stdout o = refl
on_target-impls text true (file g) o = refl
on_target-impls text false (file g) o = refl

-- A message for the standard error output leaves the targets alone.
error_output-stream_of :
    (target : Target) (o : Outputs) (message : Bytes)
    → (stream_of target (record o { error_output = message })).written
      ≡ (stream_of target o).written ++ []
error_output-stream_of stdout o message = sym (append-nil o.cout.written)
error_output-stream_of (file h) o message = sym (append-nil (o.files h).written)

module _ (locks : ℕ → Bool) (id : ℕ) (level : Level) (text : Bytes) (o : Outputs) where
  abbrev below : Bool
  below = ltb (to_u8 level) (to_u8 (o.impls id).level)

  append_to-impls : (append_to locks (some id) level text o).impls ≡ o.impls
  unfolding append_to
  append_to-impls = elim (Bool-cases below) [
    | inl low ↦ rw low refl
    | inr high ↦ elim (Bool-cases (locks id)) [
      | inl open_lock ↦
          rw (high, open_lock) (on_target-impls text (is_fatal level) (o.impls id).target o)
      | inr stuck ↦ rw (high, stuck) refl
    ]
  ]

  append_to-written :
      (target : Target)
      → (stream_of target (append_to locks (some id) level text o)).written
        ≡ (stream_of target o).written ++ if_reached (reaches locks o target level id) text
  unfolding append_to
  append_to-written target = elim (Bool-cases below) [
    | inl low ↦ rw low (sym (append-nil (stream_of target o).written))
    | inr high ↦ elim (Bool-cases (locks id)) [
      | inl open_lock ↦
          rw (high, open_lock)
            (on_target-written text (is_fatal level) (o.impls id).target target o)
      | inr stuck ↦ rw (high, stuck) (error_output-stream_of target o _)
    ]
  ]

-- A formatted record is written to every target once for each appender of the list that writes there,
-- lets the level through and can be locked, in the list's order and behind what was there; nothing
-- else is written.
pub deliver-written :
    (locks : ℕ → Bool) (appenders : List ℕ) (level : Level) (text : Bytes) (o : Outputs)
    (target : Target)
    → (stream_of target (deliver locks appenders level text o)).written
      ≡ (stream_of target o).written ++ copies locks o target level text appenders
unfolding deliver
deliver-written locks [] level text o target = sym (append-nil (stream_of target o).written)
deliver-written locks (id ∷ appenders) level text o target =
    deliver-written locks appenders level text (append_to locks (some id) level text o) target
    ∙ rw (append_to-written locks id level text o target, append_assoc)
        (ap
          (λ impls.
            (stream_of target o).written
            ++ (if_reached (reaches locks o target level id) text
                ++ copies locks (record o { impls = impls }) target level text appenders))
          (append_to-impls locks id level text o))

-- No appender changes its level or its target.
pub deliver-impls :
    (locks : ℕ → Bool) (appenders : List ℕ) (level : Level) (text : Bytes) (o : Outputs)
    → (deliver locks appenders level text o).impls ≡ o.impls
unfolding deliver
deliver-impls locks [] level text o = refl
deliver-impls locks (id ∷ appenders) level text o =
    deliver-impls locks appenders level text (append_to locks (some id) level text o)
    ∙ append_to-impls locks id level text o
