-- ===== src/Appender/Streams.antt =====
-- The streams of the appenders (pans/src/Logger/apender.cc) as time goes on.
use mathlib.Core.Path.{subst}
use pans.Appender.{
  Outputs, Sink, write_sink, flush_sink, sync_sink, stream_of, Target, stdout, file, on_target,
  write_unlocked, flush_unlocked, sync_unlocked,
}
use pans.Base.{
  ◌≤◌, ◌<◌, ◌≡◌, refl, sym, ap, ◌∙◌, [], ◌++◌, Bytes, ◌==◌, ==_iff, length, length-append,
  append-nil, append_assoc, arith, Bool-cases, inl, inr,
}

-- What is on the disk has been handed to the system, and that has been written.
pub record IsSound (sink : Sink) : Type 0 where
  pub synced_le : sink.synced ≤ sink.flushed
  pub flushed_le : sink.flushed ≤ length sink.written

-- A stream later on: more bytes behind the earlier ones, and no byte is taken back from the system or
-- from the disk. A sound stream stays so.
pub record Continues (a b : Sink) : Type 0 where
  pub added : Bytes
  pub grown : b.written ≡ a.written ++ added
  pub handed : a.flushed ≤ b.flushed
  pub stored : a.synced ≤ b.synced
  pub sound : IsSound b

pub Continues-self : (a : Sink) → IsSound a → Continues a a
Continues-self a s = record {
  added = [];
  grown = sym (append-nil a.written);
  handed = omega arith;
  stored = omega arith;
  sound = s;
}

Continues-trans : {a b c : Sink} → Continues a b → Continues b c → Continues a c
Continues-trans {a} p q = record {
  added = p.added ++ q.added;
  grown = q.grown ∙ ap (λ xs. xs ++ q.added) p.grown ∙ append_assoc a.written p.added q.added;
  handed = omega (arith, p.handed, q.handed);
  stored = omega (arith, p.stored, q.stored);
  sound = q.sound;
}

write_sink-Continues : (text : Bytes) (a : Sink) → IsSound a → Continues a (write_sink text a)
write_sink-Continues text a s = record {
  added = text;
  grown = refl;
  handed = omega arith;
  stored = omega arith;
  sound = record {
    synced_le = s.synced_le;
    flushed_le = omega (arith, s.flushed_le, length-append a.written text);
  };
}

pub flush_sink-Continues : (a : Sink) → IsSound a → Continues a (flush_sink a)
flush_sink-Continues a s = record {
  added = [];
  grown = sym (append-nil a.written);
  handed = s.flushed_le;
  stored = omega arith;
  sound = record { synced_le = omega (arith, s.synced_le, s.flushed_le); flushed_le = omega arith };
}

sync_sink-Continues : (a : Sink) → IsSound a → Continues a (sync_sink a)
sync_sink-Continues a s = record {
  added = [];
  grown = sym (append-nil a.written);
  handed = omega arith;
  stored = s.synced_le;
  sound = record { synced_le = omega arith; flushed_le = s.flushed_le };
}

-- Every stream later on.
abbrev AllContinue : Outputs → Outputs → Type 0
AllContinue o o' = (target : Target) → Continues (stream_of target o) (stream_of target o')

abbrev pub AllSound : Outputs → Type 0
AllSound o = (target : Target) → IsSound (stream_of target o)

on_target-AllContinue :
    (f : Sink → Sink) (t : Target) (o : Outputs)
    → ((a : Sink) → IsSound a → Continues a (f a))
    → AllSound o
    → AllContinue o (on_target f t o)
on_target-AllContinue f stdout o keeps s stdout = keeps o.cout (s stdout)
on_target-AllContinue f stdout o keeps s (file h) = Continues-self (o.files h) (s (file h))
on_target-AllContinue f (file g) o keeps s stdout = Continues-self o.cout (s stdout)
on_target-AllContinue f (file g) o keeps s (file h) = elim (Bool-cases (g == h)) [
  | inl same ↦ rw (same, (==_iff g h).0 same) (keeps (o.files h) (s (file h)))
  | inr other ↦ rw other (Continues-self (o.files h) (s (file h)))
]

-- A target that an appender may have: the standard output, or a file that has been opened.
abbrev pub IsOpened : Outputs → Target → Type 0
IsOpened o stdout = Unit
IsOpened o (file h) = h < o.file_count

-- Outputs later on.
pub record Later (o o' : Outputs) : Type 0 where
  pub continues :
      (target : Target) → IsOpened o target → Continues (stream_of target o) (stream_of target o')
  pub all_sound : AllSound o'
  pub stays : o.file_count ≤ o'.file_count

pub IsOpened-Later :
    {o o' : Outputs} → Later o o' → (target : Target) → IsOpened o target → IsOpened o' target
IsOpened-Later l stdout h = tt
IsOpened-Later l (file g) h = omega (arith, l.stays)

pub Later-self : (o : Outputs) → AllSound o → Later o o
Later-self o s = record {
  continues = λ target h. Continues-self (stream_of target o) (s target);
  all_sound = s;
  stays = omega arith;
}

pub Later-trans : {o o1 o2 : Outputs} → Later o o1 → Later o1 o2 → Later o o2
Later-trans p q = record {
  continues = λ target h.
      Continues-trans (p.continues target h) (q.continues target (IsOpened-Later p target h));
  all_sound = q.all_sound;
  stays = omega (arith, p.stays, q.stays);
}

on_target-count :
    (f : Sink → Sink) (t : Target) (o : Outputs) → (on_target f t o).file_count ≡ o.file_count
on_target-count f stdout o = refl
on_target-count f (file h) o = refl

pub on_target-Later :
    (f : Sink → Sink) (t : Target) (o : Outputs)
    → ((a : Sink) → IsSound a → Continues a (f a))
    → AllSound o
    → Later o (on_target f t o)
on_target-Later f t o keeps s = record {
  continues = λ target h. on_target-AllContinue f t o keeps s target;
  all_sound = λ target. (on_target-AllContinue f t o keeps s target).sound;
  stays = omega (arith, on_target-count f t o);
}

-- The streams are as they were.
pub same-Later :
    (o o' : Outputs)
    → ((target : Target) → stream_of target o' ≡ stream_of target o)
    → o'.file_count ≡ o.file_count
    → AllSound o
    → Later o o'
same-Later o o' same counted s = record {
  continues = λ target h.
      subst (λ sink. Continues (stream_of target o) sink) (sym (same target))
        (Continues-self (stream_of target o) (s target));
  all_sound = λ target. subst IsSound (sym (same target)) (s target);
  stays = omega (arith, counted);
}

module _ (o : Outputs) (s : AllSound o) (t : Target) where
  pub write_unlocked-Later : (text : Bytes) → Later o (write_unlocked text t o)
  unfolding write_unlocked
  write_unlocked-Later text = on_target-Later (write_sink text) t o (write_sink-Continues text) s

  pub flush_unlocked-Later : Later o (flush_unlocked t o)
  unfolding flush_unlocked
  flush_unlocked-Later = on_target-Later flush_sink t o flush_sink-Continues s

pub sync_unlocked-Later : (o : Outputs) → AllSound o → (t : Target) → Later o (sync_unlocked t o)
unfolding sync_unlocked
sync_unlocked-Later o s stdout = flush_unlocked-Later o s stdout
sync_unlocked-Later o s (file h) =
    let flushed = flush_unlocked-Later o s (file h) in
    Later-trans flushed (
      on_target-Later sync_sink (file h) (flush_unlocked (file h) o) sync_sink-Continues
        flushed.all_sound)
