-- ===== src/Utf/Units.antt =====
-- The bytes of one code point (pans/src/utils/string_utils.cc): what is encoded is decoded, and
-- nothing else.
use Prim.Native.Nat.{bit_or}
use pans.Base.Bits.{holds_below, holds_below_lem, bit_or-shift_six}
use pans.Base.{
  ℕ, zero, suc, ◌+◌, ◌*◌, ◌/◌, ◌%◌, ◌^◌, ◌<◌, ◌≤◌, ◌≡◌, refl, Bool, true, false, not, ◌&&◌, some,
  [], ◌∷◌, Bytes, ltb, leb, ◌==◌, ==_iff, length, arith,
}
use pans.Utf.{
  encode, is_continuation, push_six, read_continuations, refuse, decode_sequence, decode_code_point,
  is_scalar,
}

-- `|` of the mark of a byte and bits below it.
or_mark : ℕ → ℕ → Bool
or_mark mark y = bit_or mark y == mark + y

module _ (y : ℕ) where
  or_two : y < 32 → bit_or 0xC0 y ≡ 0xC0 + y
  unfolding or_mark holds_below
  or_two h = (==_iff _ _).0 (holds_below_lem 32 (or_mark 0xC0) y refl h)

  or_three : y < 16 → bit_or 0xE0 y ≡ 0xE0 + y
  unfolding or_mark holds_below
  or_three h = (==_iff _ _).0 (holds_below_lem 16 (or_mark 0xE0) y refl h)

  or_four : y < 8 → bit_or 0xF0 y ≡ 0xF0 + y
  unfolding or_mark holds_below
  or_four h = (==_iff _ _).0 (holds_below_lem 8 (or_mark 0xF0) y refl h)

  or_more : y < 64 → bit_or 0x80 y ≡ 0x80 + y
  unfolding or_mark holds_below
  or_more h = (==_iff _ _).0 (holds_below_lem 64 (or_mark 0x80) y refl h)

-- A continuation byte has the bits 10 on top.
continuation_range : ℕ → Bool
continuation_range c = leb 0x80 c && ltb c 0xC0

same : Bool → Bool → Bool
same true b = b
same false b = not b

same_eq : (a b : Bool) → same a b ≡ true → a ≡ b
unfolding same
same_eq true true h = refl
same_eq true false h = cc
same_eq false true h = cc
same_eq false false h = refl

pub is_continuation-range : (c : ℕ) → c < 256 → is_continuation c ≡ (leb 0x80 c && ltb c 0xC0)
unfolding is_continuation continuation_range same holds_below
is_continuation-range c h =
    same_eq _ _
      (holds_below_lem 256 (λ c. same (is_continuation c) (continuation_range c)) c refl h)

pub push_six_lem :
    (code_point c : ℕ) → code_point < 2 ^ 26 → push_six code_point c ≡ code_point * 64 + c % 64
unfolding push_six
push_six_lem code_point c h = rw (fits) (bit_or-shift_six code_point (c % 64) (omega arith))
  where
    fits : code_point * 64 % 2 ^ 32 ≡ code_point * 64
    fits = omega arith

-- A continuation byte extends the code point read so far.
read_more :
    (count code_point b : ℕ) (rest : Bytes)
    → b < 64
    → code_point < 2 ^ 26
    → read_continuations (suc count) code_point ((0x80 + b) ∷ rest)
      ≡ read_continuations count (code_point * 64 + b) rest
unfolding read_continuations
read_more count code_point b rest h k =
    rw
      (
        is_continuation-range (0x80 + b) (omega arith),
        lower,
        upper,
        push_six_lem code_point (0x80 + b) k,
        low,
      )
      refl
  where
    lower : leb 0x80 (0x80 + b) ≡ true
    lower = ground arith

    upper : ltb (0x80 + b) 0xC0 ≡ true
    upper = ground arith

    low : (0x80 + b) % 64 ≡ b
    low = omega arith

read_no_more :
    (code_point : ℕ) (rest : Bytes)
    → read_continuations zero code_point rest ≡ some (code_point, rest)
unfolding read_continuations
read_no_more code_point rest = refl

-- The branches on the first byte.
module _ (a : ℕ) (text : Bytes) where
  pub first_one : a ≤ 0x7F → decode_code_point a text ≡ some (a, text)
  unfolding decode_code_point
  first_one h = ground arith

  pub first_two : 2 ≤ a → a < 32 → decode_code_point (0xC0 + a) text ≡ decode_sequence a 0x80 1 text
  unfolding decode_code_point
  first_two h k = rw residue (ground arith)
    where
      residue : (0xC0 + a) % 32 ≡ a
      residue = omega arith

  pub first_three : a < 16 → decode_code_point (0xE0 + a) text ≡ decode_sequence a 0x800 2 text
  unfolding decode_code_point
  first_three k = rw residue (ground arith)
    where
      residue : (0xE0 + a) % 16 ≡ a
      residue = omega arith

  pub first_four : a < 5 → decode_code_point (0xF0 + a) text ≡ decode_sequence a 0x10000 3 text
  unfolding decode_code_point
  first_four k = rw residue (ground arith)
    where
      residue : (0xF0 + a) % 8 ≡ a
      residue = omega arith

-- A code point that is no surrogate passes the last test, from the minimum on.
accept :
    (minimum code_point : ℕ) (rest : Bytes)
    → minimum ≤ code_point
    → is_scalar code_point ≡ true
    → refuse minimum (some (code_point, rest)) ≡ some (code_point, rest)
accept minimum code_point rest h s = ground arith

module _ (rest : Bytes) (code_point : ℕ) (s : is_scalar code_point ≡ true) where
  pub sequence_two :
      (a b : ℕ)
      → a < 32
      → b < 64
      → a * 64 + b ≡ code_point
      → 0x80 ≤ code_point
      → decode_sequence a 0x80 1 ((0x80 + b) ∷ rest) ≡ some (code_point, rest)
  unfolding decode_sequence
  sequence_two a b ha hb e h =
      rw (enough, read_more 0 a b rest hb (omega arith), read_no_more, e)
        (accept 0x80 code_point rest h s)
    where
      enough : ltb (length ((0x80 + b) ∷ rest)) 1 ≡ false
      enough = ground arith

  pub sequence_three :
      (a b c : ℕ)
      → a < 16
      → b < 64
      → c < 64
      → (a * 64 + b) * 64 + c ≡ code_point
      → 0x800 ≤ code_point
      → decode_sequence a 0x800 2 ((0x80 + b) ∷ (0x80 + c) ∷ rest) ≡ some (code_point, rest)
  unfolding decode_sequence
  sequence_three a b c ha hb hc e h =
      rw
        (
          enough,
          read_more 1 a b ((0x80 + c) ∷ rest) hb (omega arith),
          read_more 0 (a * 64 + b) c rest hc (omega arith),
          read_no_more,
          e,
        )
        (accept 0x800 code_point rest h s)
    where
      enough : ltb (length ((0x80 + b) ∷ (0x80 + c) ∷ rest)) 2 ≡ false
      enough = ground arith

  pub sequence_four :
      (a b c d : ℕ)
      → a < 5
      → b < 64
      → c < 64
      → d < 64
      → ((a * 64 + b) * 64 + c) * 64 + d ≡ code_point
      → 0x10000 ≤ code_point
      → decode_sequence a 0x10000 3 ((0x80 + b) ∷ (0x80 + c) ∷ (0x80 + d) ∷ rest)
        ≡ some (code_point, rest)
  unfolding decode_sequence
  sequence_four a b c d ha hb hc hd e h =
      rw
        (
          enough,
          read_more 2 a b ((0x80 + c) ∷ (0x80 + d) ∷ rest) hb (omega arith),
          read_more 1 (a * 64 + b) c ((0x80 + d) ∷ rest) hc (omega arith),
          read_more 0 ((a * 64 + b) * 64 + c) d rest hd (omega arith),
          read_no_more,
          e,
        )
        (accept 0x10000 code_point rest h s)
    where
      enough : ltb (length ((0x80 + b) ∷ (0x80 + c) ∷ (0x80 + d) ∷ rest)) 3 ≡ false
      enough = ground arith

-- The four shapes of an encoded code point: the marks and the bits of a byte do not overlap.
module _ (n : ℕ) where
  pub encode_one : n ≤ 0x7F → encode n ≡ n ∷ []
  unfolding encode
  encode_one h = ground arith

  pub encode_two : 0x7F < n → n ≤ 0x7FF → encode n ≡ (0xC0 + n / 64) ∷ (0x80 + n % 64) ∷ []
  unfolding encode
  encode_two h k = ground (arith, or_two (n / 64), or_more (n % 64))

  pub encode_three :
      0x7FF < n
      → n ≤ 0xFFFF
      → encode n ≡ (0xE0 + n / 4096) ∷ (0x80 + n / 64 % 64) ∷ (0x80 + n % 64) ∷ []
  unfolding encode
  encode_three h k = ground (arith, or_three (n / 4096), or_more (n / 64 % 64), or_more (n % 64))

  pub encode_four :
      0xFFFF < n
      → n ≤ 0x10FFFF
      → encode n
        ≡ (0xF0 + n / 262144) ∷ (0x80 + n / 4096 % 64) ∷ (0x80 + n / 64 % 64) ∷ (0x80 + n % 64) ∷ []
  unfolding encode
  encode_four h k = ground (
    arith,
    or_four (n / 262144),
    or_more (n / 4096 % 64),
    or_more (n / 64 % 64),
    or_more (n % 64),
  )
