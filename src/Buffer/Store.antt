-- ===== src/Buffer/Store.antt =====
-- The two stores of `InlineBuffer` (pans/src/Logger/buffer.h), and what is copied into them.
use pans.Base.{
  ℕ, ◌+◌, ◌^◌, ◌≤◌, ◌<◌, ◌≡◌, refl, true, false, [], ◌∷◌, ◌++◌, ◌⊎◌, inl, inr, append_assoc, arith,
  Bytes, length, is_empty, take, drop, leb, length-append, length-take, length-drop, take-append,
  Bool-cases, leb→le, length-replicate,
}
use pans.Buffer.{
  Allocator, Vector, Outcome, done, bad_alloc, InlineBuffer, size_sum, memcpy, view, reserve,
  insert_end, empty_buffer,
}

-- Where the bytes are: up to the capacity in the array, and all of them in the vector beyond it.
pub record IsValid (inline_capacity : ℕ) (b : InlineBuffer) : Type 0 where
  pub room : length b.inline ≡ inline_capacity
  pub inlined : is_empty b.overflow.elems ≡ true → b.size ≤ inline_capacity
  pub spilled :
      is_empty b.overflow.elems ≡ false
      → (length b.overflow.elems ≡ b.size) × (inline_capacity < b.size)
  pub reserved : length b.overflow.elems ≤ b.overflow.capacity

pub empty_buffer-IsValid :
    (inline_capacity : ℕ) → IsValid inline_capacity (empty_buffer inline_capacity)
empty_buffer-IsValid inline_capacity = record {
  room = length-replicate inline_capacity 0;
  inlined = λ _. omega arith;
  spilled = λ e. cc;
  reserved = omega arith;
}

pub nil_of_is_empty : (xs : Bytes) → is_empty xs ≡ true → xs ≡ []
nil_of_is_empty [] e = refl
nil_of_is_empty (x ∷ xs) e = cc

pub is_empty-append_cons : (xs : Bytes) (x : ℕ) (ys : Bytes) → is_empty (xs ++ x ∷ ys) ≡ false
is_empty-append_cons [] x ys = refl
is_empty-append_cons (y ∷ xs) x ys = refl

pub size_sum_lem : (a b : ℕ) → a + b < 2 ^ 64 → size_sum a b ≡ a + b
size_sum_lem a b h = omega arith

take-take-append :
    (n : ℕ) (xs ys zs : Bytes) → length xs ≡ n → take (n + length ys) (xs ++ (ys ++ zs)) ≡ xs ++ ys
take-take-append n xs ys zs h =
    rw (← h, ← length-append xs ys, ← append_assoc xs ys zs) (take-append (xs ++ ys) zs)

module _ {inline_capacity : ℕ} (b : InlineBuffer) (v : IsValid inline_capacity b) where
  open v use {room, inlined, spilled, reserved}

  pub length-view : length (view b) ≡ b.size
  length-view = elim (Bool-cases (is_empty b.overflow.elems)) [
    | inl e ↦ rw e (omega (arith, length-take b.size b.inline, inlined e))
    | inr e ↦ rw e (omega (arith, length-take b.size b.overflow.elems, spilled e))
  ]

module _ (array : Bytes) (start : ℕ) (bytes : Bytes) (h : start + length bytes ≤ length array) where
  pub length-memcpy : length (memcpy array start bytes) ≡ length array
  unfolding memcpy
  length-memcpy = omega (
    arith,
    length-append (take start array) (bytes ++ drop (start + length bytes) array),
    length-append bytes (drop (start + length bytes) array),
    length-take start array,
    length-drop (start + length bytes) array,
  )

  pub take-memcpy :
      take (start + length bytes) (memcpy array start bytes) ≡ take start array ++ bytes
  unfolding memcpy
  take-memcpy =
      take-take-append start (take start array) bytes _ (omega (arith, length-take start array))

-- What a step on the vector does: it throws and leaves the vector, or it ends with these elements in
-- a vector that has room for them.
abbrev pub Fills : Vector → Bytes → Outcome Vector → Type 0
Fills v elems out =
    (out ≡ bad_alloc v)
    ⊎ ((w : Vector) × (out ≡ done w) × (w.elems ≡ elems) × (length w.elems ≤ w.capacity))

module _ (alloc : Allocator) where
  pub insert_end-Fills :
      (v : Vector) (bytes : Bytes) → Fills v (v.elems ++ bytes) (insert_end alloc v bytes)
  unfolding insert_end
  insert_end-Fills v bytes = elim (Bool-cases (leb needed v.capacity)) [
    | inl fits ↦ rw fits (inr (record v { elems = v.elems ++ bytes }, refl, refl, measure fits))
    | inr full ↦ elim (Bool-cases (alloc.grants (alloc.growth v.capacity needed))) [
      | inl granted ↦
          rw (full, granted)
            (inr (
              record { elems = v.elems ++ bytes; capacity = alloc.growth v.capacity needed },
              refl,
              refl,
              omega (arith, length-append v.elems bytes, alloc.growth_le v.capacity needed),
            ))
      | inr refused ↦ rw (full, refused) (inl refl)
    ]
  ]
    where
      needed : ℕ
      needed = length v.elems + length bytes

      measure : leb needed v.capacity ≡ true → length (v.elems ++ bytes) ≤ v.capacity
      measure fits = omega (arith, length-append v.elems bytes, leb→le needed v.capacity fits)

  pub insert_end_fits :
      (v : Vector) (bytes : Bytes)
      → length v.elems + length bytes ≤ v.capacity
      → insert_end alloc v bytes ≡ done (record v { elems = v.elems ++ bytes })
  unfolding insert_end
  insert_end_fits v bytes h = ground arith

  pub reserve_cases :
      (v : Vector) (count : ℕ)
      → (reserve alloc v count ≡ bad_alloc v)
        ⊎ ((w : Vector) × (reserve alloc v count ≡ done w)
            × (w.elems ≡ v.elems)
            × (count ≤ w.capacity))
  unfolding reserve
  reserve_cases v count = elim (Bool-cases (leb count v.capacity)) [
    | inl fits ↦ rw fits (inr (v, refl, refl, leb→le count v.capacity fits))
    | inr full ↦ elim (Bool-cases (alloc.grants count)) [
      | inl granted ↦
          rw (full, granted) (inr (record v { capacity = count }, refl, refl, omega arith))
      | inr refused ↦ rw (full, refused) (inl refl)
    ]
  ]
