-- ===== src/Decimal/Value.antt =====
-- The digits that pans/src/Logger/formatter.cc writes stand for the number that was given.
use native.Mathlib.Nat.{pow-suc}
use pans.Base.{
  ℕ, zero, suc, ◌+◌, ◌-◌, ◌*◌, ◌/◌, ◌%◌, ◌^◌, ◌≤◌, ◌<◌, ◌≡◌, refl, ap, ◌∙◌, false, Option, some, [],
  ◌∷◌, ◌++◌, inl, inr, arith, Bytes, length, length-append, ltb, ltb→lt, lt→ltb, Bool-cases,
}
use pans.Decimal.{to_chars, fill_digits}

-- The number that decimal digits stand for, behind digits that stand for `n`.
abbrev pub value_from : ℕ → Bytes → ℕ
value_from n [] = n
value_from n (c ∷ cs) = value_from (n * 10 + (c - b'0')) cs

value_from-append :
    (n : ℕ) (xs ys : Bytes) → value_from n (xs ++ ys) ≡ value_from (value_from n xs) ys
value_from-append n [] ys = refl
value_from-append n (x ∷ xs) ys = value_from-append (n * 10 + (x - b'0')) xs ys

-- The text is in `out`, it stands for `n`, and it has `room` bytes at most.
pub record Prints (room n : ℕ) (out : Option Bytes) : Type 0 where
  pub text : Bytes
  pub written : out ≡ some text
  pub value : value_from 0 text ≡ n
  pub fits : length text ≤ room

one_digit : (room n : ℕ) → n < 10 → Prints (suc room) n (to_chars (suc room) n)
unfolding to_chars
one_digit room n h =
    rw (lt→ltb n 10 h)
      (record { text = (b'0' + n) ∷ []; written = refl; value = omega arith; fits = omega arith })

more_digits :
    (room n : ℕ)
    → ltb n 10 ≡ false
    → Prints room (n / 10) (to_chars room (n / 10))
    → Prints (suc room) n (to_chars (suc room) n)
unfolding to_chars
more_digits room n e p =
    rw (e, p.written)
      (record {
        text = p.text ++ (b'0' + n % 10) ∷ [];
        written = refl;
        value = omega (arith, value_from-append 0 p.text ((b'0' + n % 10) ∷ []), p.value);
        fits = omega (arith, length-append p.text ((b'0' + n % 10) ∷ []), p.fits);
      })

-- A number below 10 ^ (room + 1) is written in `room + 1` bytes.
pub to_chars-Prints : (room n : ℕ) → n < 10 ^ suc room → Prints (suc room) n (to_chars (suc room) n)
to_chars-Prints zero n h = one_digit zero n (omega arith)
to_chars-Prints (suc room) n h = elim (Bool-cases (ltb n 10)) [
  | inl small ↦ one_digit (suc room) n (ltb→lt n 10 small)
  | inr large ↦
      more_digits (suc room) n large
        (to_chars-Prints room (n / 10) (omega (arith, h, pow-suc 10 (suc room))))
]

zero_below : (n : ℕ) → n < 1 → n ≡ 0
zero_below n h = omega arith

pub fill_digits-value :
    (index remaining : ℕ) (digits : Bytes)
    → remaining < 10 ^ index
    → value_from 0 (fill_digits index remaining digits) ≡ value_from remaining digits
unfolding fill_digits
fill_digits-value zero remaining digits h = rw (zero_below remaining h)
fill_digits-value (suc index) remaining digits h =
    fill_digits-value index (remaining / 10) _ (omega (arith, h, pow-suc 10 index))
    ∙ ap (λ n. value_from n digits) (omega arith)

pub length-fill_digits :
    (index remaining : ℕ) (digits : Bytes)
    → length (fill_digits index remaining digits) ≡ index + length digits
unfolding fill_digits
length-fill_digits zero remaining digits = omega arith
length-fill_digits (suc index) remaining digits =
    omega (arith, length-fill_digits index (remaining / 10) ((b'0' + remaining % 10) ∷ digits))
