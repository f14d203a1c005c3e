-- ===== src/Buffer/View.antt =====
-- `InlineBuffer` of pans/src/Logger/buffer.h holds the bytes that were appended, in order, whichever
-- of the two stores they are in, and keeps them when an allocation throws.
use pans.Base.{
  ℕ, ◌+◌, ◌*◌, ◌^◌, ◌≤◌, ◌<◌, ◌≡◌, refl, sym, ap, ◌∙◌, true, false, [], ◌∷◌, ◌++◌, inl, inr,
  append-nil, arith, Bytes, length, is_empty, take, max, leb, length-append, length-take,
  take-length, Bool-cases, leb→le,
}
use mathlib.Core.Bool.{false≢true}
use pans.Buffer.{
  Allocator, Vector, Outcome, done, bad_alloc, InlineBuffer, size_sum, memcpy, ◌>>=◌, view,
  insert_end, move_inline, commit, append,
}
use pans.Buffer.Store.{
  IsValid, nil_of_is_empty, is_empty-append_cons, size_sum_lem, length-memcpy, take-memcpy, Fills,
  insert_end-Fills, insert_end_fits, reserve_cases,
}

-- What `append` promises of its outcome: the bytes behind those that the buffer held; or, where an
-- allocation has thrown, which needs more bytes than the array holds, the bytes that it held.
abbrev pub Appends : ℕ → InlineBuffer → Bytes → Outcome InlineBuffer → Type 0
Appends inline_capacity b bytes (done b') = IsValid inline_capacity b' × (view b' ≡ view b ++ bytes)
Appends inline_capacity b bytes (bad_alloc b') =
    IsValid inline_capacity b' × (view b' ≡ view b) × (inline_capacity < b.size + length bytes)

module _ (alloc : Allocator) {inline_capacity : ℕ} (b : InlineBuffer)
    (v : IsValid inline_capacity b) (x : ℕ) (xs : Bytes)
    (small : b.size + length (x ∷ xs) < 2 ^ 64) where
  open v use {room, inlined, spilled, reserved}

  abbrev bytes : Bytes
  bytes = x ∷ xs

  abbrev spill : Outcome Vector
  spill = move_inline alloc inline_capacity b (length bytes) >>= λ w. insert_end alloc w bytes

  -- The room that is reserved first holds both insertions, so that only the reservation may throw.
  spill_first :
      is_empty b.overflow.elems ≡ true → Fills b.overflow (take b.size b.inline ++ bytes) spill
  unfolding move_inline
  spill_first e =
      elim (reserve_cases alloc b.overflow
        (max (size_sum b.size (length bytes)) (2 * inline_capacity))) [
          | inl threw ↦ rw (e, threw) (inl refl)
          | inr (w, granted, same, roomy) ↦
              let nil : w.elems ≡ [] = same ∙ nil_of_is_empty b.overflow.elems e in
              let moved : Vector = record w { elems = w.elems ++ take b.size b.inline } in
              let fits : length moved.elems + length bytes ≤ w.capacity = omega (
                arith,
                length-append w.elems (take b.size b.inline),
                length-take b.size b.inline,
                ap length nil,
              ) in
              rw
                (
                  e,
                  granted,
                  insert_end_fits alloc w (take b.size b.inline)
                      (omega (arith, length-append w.elems (take b.size b.inline))),
                  insert_end_fits alloc moved bytes fits,
                )
                (inr (
                  record w { elems = moved.elems ++ bytes },
                  refl,
                  rw nil,
                  omega (arith, length-append moved.elems bytes),
                ))
        ]

  spill_again :
      is_empty b.overflow.elems ≡ false → Fills b.overflow (b.overflow.elems ++ bytes) spill
  unfolding move_inline
  spill_again e = rw e (insert_end-Fills alloc b.overflow bytes)

  size_after : size_sum b.size (length bytes) ≡ b.size + length bytes
  size_after = size_sum_lem b.size (length bytes) small

  stored_inline :
      is_empty b.overflow.elems ≡ true
      → leb (size_sum (length bytes) b.size) inline_capacity ≡ true
      → Appends inline_capacity b bytes (
          done (record b {
            inline = memcpy b.inline b.size bytes;
            size = size_sum b.size (length bytes);
          }))
  stored_inline e fits = (
    record {
      room = length-memcpy b.inline b.size bytes within ∙ room;
      inlined = λ _. omega (arith, fitting, size_after);
      spilled = λ f. absurd (false≢true (sym f ∙ e));
      reserved = reserved;
    },
    rw (e, size_after) (take-memcpy b.inline b.size bytes within),
  )
    where
      fitting : b.size + length bytes ≤ inline_capacity
      fitting = omega (arith, leb→le (size_sum (length bytes) b.size) inline_capacity fits)

      within : b.size + length bytes ≤ length b.inline
      within = omega (arith, fitting, room)

  commit-Appends :
      (old : Bytes)
      → view b ≡ old
      → length old ≡ b.size
      → inline_capacity < b.size + length bytes
      → {out : Outcome Vector} → Fills b.overflow (old ++ bytes) out
      → Appends inline_capacity b bytes (commit b (length bytes) out)
  commit-Appends old held measure more (inl threw) = rw threw (v, refl, more)
  commit-Appends old held measure more (inr (w, stored, e, roomy)) =
      rw (stored, size_after)
        (
          record {
            room = room;
            inlined = λ f. absurd (false≢true (sym full ∙ f));
            spilled = λ _. (total, more);
            reserved = roomy;
          },
          rw (full, e, held)
              (take-length _ (old ++ bytes) (omega (arith, length-append old bytes))),
        )
    where
      full : is_empty w.elems ≡ false
      full = rw e (is_empty-append_cons old x xs)

      total : length w.elems ≡ b.size + length bytes
      total = omega (arith, ap length e, length-append old bytes)

  append_cons : Appends inline_capacity b bytes (append alloc inline_capacity b bytes)
  unfolding append
  append_cons = elim (Bool-cases (is_empty b.overflow.elems)) [
    | inl e ↦ elim (Bool-cases (leb (size_sum (length bytes) b.size) inline_capacity)) [
      | inl fits ↦ rw (e, fits) (stored_inline e fits)
      | inr full ↦
          rw (e, full)
            (commit-Appends (take b.size b.inline) (rw e)
              (omega (arith, length-take b.size b.inline, inlined e)) (ground arith)
              (spill_first e))
    ]
    | inr e ↦ rw e (
        commit-Appends b.overflow.elems
          (rw e (take-length b.size b.overflow.elems (omega (arith, spilled e)))) (spilled e).0
          (omega (arith, spilled e)) (spill_again e))
  ]

-- `append` keeps a valid buffer valid, on every path. It adds the bytes behind those held, in the
-- array or in the vector; where an allocation throws it holds what it held, and that can only happen
-- if the bytes together are more than the array holds. The size is taken to stay below 2 ^ 64.
pub append_lem :
    (alloc : Allocator) {inline_capacity : ℕ} (b : InlineBuffer)
    → IsValid inline_capacity b
    → (bytes : Bytes) → b.size + length bytes < 2 ^ 64
    → Appends inline_capacity b bytes (append alloc inline_capacity b bytes)
unfolding append
append_lem alloc b v [] small = (v, sym (append-nil (view b)))
append_lem alloc b v (x ∷ xs) small = append_cons alloc b v x xs small
