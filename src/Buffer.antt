-- ===== src/Buffer.antt =====
-- pans/src/Logger/buffer.h: `InlineBuffer`, a byte buffer in a fixed array that spills into a
-- vector, and `SmallStreamBuffer`, the stream buffer over it. The template's capacity and the
-- allocator behind the vector are parameters.
pub mod Store
pub mod View
pub mod Refused
pub mod Stream
pub mod Messages
mod Tests
use pans.Base.{
  ℕ, ◌+◌, ◌*◌, ◌%◌, ◌^◌, ◌≤◌, Bool, true, false, ◌&&◌, List, [], ◌∷◌, ◌++◌, Bytes, length, is_empty,
  take, drop, replicate, max, ltb, leb, ◌==◌, if◌then◌else◌,
}

-- `operator new`, as the vector sees it: whether a request of so many bytes is granted, and the
-- capacity that the library asks for when a vector of some capacity has to hold more. The grown
-- capacity holds what is needed.
pub record Allocator : Type 0 where
  pub grants : ℕ → Bool
  pub growth : ℕ → ℕ → ℕ
  pub growth_le : (old needed : ℕ) → needed ≤ growth old needed

-- `std::vector<char>`.
pub record Vector : Type 0 where
  pub elems : Bytes
  pub capacity : ℕ

-- A call that may throw `std::bad_alloc`, and the object that it leaves behind in either case.
pub data Outcome {ℓ} (A : Type ℓ) : Type ℓ where
  done : A → Outcome A
  bad_alloc : A → Outcome A

abbrev pub after {ℓ} : {A : Type ℓ} → Outcome A → A
after (done a) = a
after (bad_alloc a) = a

-- `InlineBuffer`, whose `inline_` holds the template's capacity of bytes.
pub record InlineBuffer : Type 0 where
  pub inline : Bytes
  pub overflow : Vector
  pub size : ℕ

-- A sum of two `std::size_t`.
abbrev pub size_sum : ℕ → ℕ → ℕ
size_sum a b = (a + b) % 2 ^ 64

-- `std::memcpy(array + at, bytes, length)`, for a copy that stays in the array.
unfoldable pub memcpy : Bytes → ℕ → Bytes → Bytes
memcpy array at bytes = take at array ++ (bytes ++ drop (at + length bytes) array)

infixl 5 ◌>>=◌
abbrev pub ◌>>=◌ {ℓ} : {A : Type ℓ} → Outcome A → (A → Outcome A) → Outcome A
◌>>=◌ (done a) f = f a
◌>>=◌ (bad_alloc a) f = bad_alloc a

-- `data()`, as the bytes from there on.
abbrev pub storage : InlineBuffer → Bytes
storage b = if is_empty b.overflow.elems then b.inline else b.overflow.elems

-- `view()`, the bytes that the buffer holds.
abbrev pub view : InlineBuffer → Bytes
view b = take b.size (storage b)

-- The end of `append`: with the vector filled the size is raised; where an allocation has thrown,
-- the vector stays as it was left.
abbrev pub commit : InlineBuffer → ℕ → Outcome Vector → Outcome InlineBuffer
commit b count (done v) = done (record b { overflow = v; size = size_sum b.size count })
commit b count (bad_alloc v) = bad_alloc (record b { overflow = v })

module _ (alloc : Allocator) where
  open alloc use {grants, growth}

  -- `overflow_.reserve(count)`.
  unfoldable pub reserve : Vector → ℕ → Outcome Vector
  reserve v count =
      if leb count v.capacity
      then done v
      else if grants count
      then done (record v { capacity = count })
      else bad_alloc v

  -- `overflow_.insert(overflow_.end(), bytes, bytes + size)`.
  unfoldable pub insert_end : Vector → Bytes → Outcome Vector
  insert_end v bytes =
      let needed : ℕ = length v.elems + length bytes in
      if leb needed v.capacity
      then done (record v { elems = v.elems ++ bytes })
      else if grants (growth v.capacity needed)
      then done (record { elems = v.elems ++ bytes; capacity = growth v.capacity needed })
      else bad_alloc v

  module _ (inline_capacity : ℕ) where
    -- The first spill: the vector takes over what the array holds.
    unfoldable pub move_inline : InlineBuffer → ℕ → Outcome Vector
    move_inline b count =
        if is_empty b.overflow.elems
        then (reserve b.overflow (max (size_sum b.size count) (2 * inline_capacity)) >>= λ v.
            insert_end v (take b.size b.inline))
        else done b.overflow

    -- `append(const char* data, std::size_t size)`; the other two overloads call this one.
    unfoldable pub append : InlineBuffer → Bytes → Outcome InlineBuffer
    append b bytes =
        if is_empty bytes
        then done b
        else if is_empty b.overflow.elems && leb (size_sum (length bytes) b.size) inline_capacity
        then done (record b {
          inline = memcpy b.inline b.size bytes;
          size = size_sum b.size (length bytes);
        })
        else commit b (length bytes) (move_inline b (length bytes) >>= λ v. insert_end v bytes)

-- A new buffer: the array zero-filled, the vector empty.
abbrev pub empty_buffer : ℕ → InlineBuffer
empty_buffer inline_capacity = record {
  inline = replicate inline_capacity 0;
  overflow = record { elems = []; capacity = 0 };
  size = 0;
}
