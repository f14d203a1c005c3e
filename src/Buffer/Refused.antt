-- ===== src/Buffer/Refused.antt =====
-- `InlineBuffer` (pans/src/Logger/buffer.h) throws only where an allocation is refused.
use pans.Base.{ℕ, ◌+◌, ◌≡◌, false, ◌&&◌, Bytes, length, leb, take, is_empty, Bool-cases, inl, inr}
use pans.Buffer.{
  Allocator, Outcome, done, bad_alloc, Vector, InlineBuffer, ◌>>=◌, size_sum, commit, reserve,
  insert_end, move_inline, append,
}

-- An exception comes from a request for memory that was not granted.
abbrev pub IsBlamed {ℓ} : {A : Type ℓ} → Allocator → Outcome A → Type 0
IsBlamed alloc (done a) = Unit
IsBlamed alloc (bad_alloc a) = (count : ℕ) × (alloc.grants count ≡ false)

module _ (alloc : Allocator) where
  reserve-IsBlamed : (v : Vector) (count : ℕ) → IsBlamed alloc (reserve alloc v count)
  unfolding reserve
  reserve-IsBlamed v count = elim (Bool-cases (leb count v.capacity)) [
    | inl fits ↦ rw fits tt
    | inr more ↦ elim (Bool-cases (alloc.grants count)) [
      | inl granted ↦ rw (more, granted) tt
      | inr refused ↦ rw (more, refused) (count, refused)
    ]
  ]

  insert_end-IsBlamed : (v : Vector) (bytes : Bytes) → IsBlamed alloc (insert_end alloc v bytes)
  unfolding insert_end
  insert_end-IsBlamed v bytes = elim (Bool-cases (leb needed v.capacity)) [
    | inl fits ↦ rw fits tt
    | inr more ↦ elim (Bool-cases (alloc.grants (alloc.growth v.capacity needed))) [
      | inl granted ↦ rw (more, granted) tt
      | inr refused ↦ rw (more, refused) (_, refused)
    ]
  ]
    where
      needed : ℕ
      needed = length v.elems + length bytes

  bind-IsBlamed :
      (out : Outcome Vector) (f : Vector → Outcome Vector)
      → IsBlamed alloc out
      → ((v : Vector) → IsBlamed alloc (f v))
      → IsBlamed alloc (out >>= f)
  bind-IsBlamed (done v) f b later = later v
  bind-IsBlamed (bad_alloc v) f b later = b

  commit-IsBlamed :
      (b : InlineBuffer) (count : ℕ) (out : Outcome Vector)
      → IsBlamed alloc out
      → IsBlamed alloc (commit b count out)
  commit-IsBlamed b count (done v) h = tt
  commit-IsBlamed b count (bad_alloc v) h = h

  module _ (inline_capacity : ℕ) (b : InlineBuffer) where
    move_inline-IsBlamed : (count : ℕ) → IsBlamed alloc (move_inline alloc inline_capacity b count)
    unfolding move_inline
    move_inline-IsBlamed count = elim (Bool-cases (is_empty b.overflow.elems)) [
      | inl first ↦ rw first (
          bind-IsBlamed _ _ (reserve-IsBlamed b.overflow _)
            (λ v. insert_end-IsBlamed v (take b.size b.inline)))
      | inr spilled ↦ rw spilled tt
    ]

    pub append-IsBlamed : (bytes : Bytes) → IsBlamed alloc (append alloc inline_capacity b bytes)
    unfolding append
    append-IsBlamed bytes = elim (Bool-cases (is_empty bytes)) [
      | inl nothing ↦ rw nothing tt
      | inr some_bytes ↦
          elim (Bool-cases
            (is_empty b.overflow.elems && leb (size_sum (length bytes) b.size) inline_capacity)) [
              | inl fits ↦ rw (some_bytes, fits) tt
              | inr more ↦
                  rw (some_bytes, more)
                    (commit-IsBlamed b (length bytes) _ (
                      bind-IsBlamed _ _ (move_inline-IsBlamed (length bytes))
                        (λ v. insert_end-IsBlamed v bytes)))
            ]
    ]
