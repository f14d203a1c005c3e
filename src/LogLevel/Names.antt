-- ===== src/LogLevel/Names.antt =====
-- What `ToString` and `FromString` of pans/src/Logger/Log_level.cc say of one another.
use mathlib.Core.List.{map}
use mathlib.Core.Option
use native.Mathlib.Decide.{dec_lt}
use pans.Base.{
  ℕ, zero, suc, ap, [], ◌∷◌, ◌<◌, ◌≤◌, ◌≡◌, ◌≢◌, ◌↔◌, ◌⊎◌, refl, none, some, arith, Bytes, codes,
  equal, equal_iff, length, Bool-cases, sym, ◌∙◌, inl, inr,
}
use mathlib.Core.Bool.{false≢true}
use pans.LogLevel.{
  Level, debug, info, warn, error, fatal, off, to_string, to_upper, level_named, transform,
  from_string, normalized_capacity,
}

-- Every level is read back from its name.
from_string-to_string : (level : Level) → from_string (to_string level) ≡ some level
unfolding from_string to_string
from_string-to_string debug = refl
from_string-to_string info = refl
from_string-to_string warn = refl
from_string-to_string error = refl
from_string-to_string fatal = refl
from_string-to_string off = refl

level_named-unknown :
    (upper : Bytes) → (to_string (level_named upper) ≡ upper) ⊎ (level_named upper ≡ off)
unfolding level_named to_string
level_named-unknown upper = ground (
  arith,
  equal_iff upper (codes "DEBUG"),
  equal_iff upper (codes "INFO"),
  equal_iff upper (codes "WARN"),
  equal_iff upper (codes "FATAL"),
  equal_iff upper (codes "OFF"),
  equal_iff upper (codes "ERROR"),
)

level_named-to_string : (level : Level) → level_named (to_string level) ≡ level
unfolding level_named to_string
level_named-to_string debug = refl
level_named-to_string info = refl
level_named-to_string warn = refl
level_named-to_string error = refl
level_named-to_string fatal = refl
level_named-to_string off = refl

level_named-spelled :
    (upper : Bytes) (other : Level) → upper ≡ to_string other → other ≡ level_named upper
level_named-spelled upper other e = rw e (sym (level_named-to_string other))

level_named-cases :
    (upper : Bytes)
    → (upper ≡ to_string (level_named upper))
      ⊎ ((level_named upper ≡ off) × ((other : Level) → upper ≢ to_string other))
level_named-cases upper = elim (Bool-cases (equal upper named)) [
  | inl same ↦ inl ((equal_iff upper named).0 same)
  | inr differs ↦
      let differ = λ (e : upper ≡ named). false≢true (sym differs ∙ (equal_iff upper named).1 e) in
      inr (
        fallen differ (level_named-unknown upper),
        λ other e. differ (rw (← level_named-spelled upper other e) e),
      )
]
  where
    named : Bytes
    named = to_string (level_named upper)

    fallen : upper ≢ named → (named ≡ upper) ⊎ (level_named upper ≡ off) → level_named upper ≡ off
    fallen differ (inl e) = absurd (differ (sym e))
    fallen differ (inr e) = e

transform-map :
    (room : ℕ) (value : Bytes)
    → length value ≤ room
    → transform room value ≡ some (map to_upper value)
unfolding transform
transform-map room [] h = refl
transform-map zero (c ∷ value) h = absurd (omega arith)
transform-map (suc room) (c ∷ value) h =
    ap (Option.map (λ upper. to_upper c ∷ upper)) (transform-map room value (omega arith))

transform-none : (room : ℕ) (value : Bytes) → room < length value → transform room value ≡ none
unfolding transform
transform-none room [] h = absurd (omega arith)
transform-none zero (c ∷ value) h = refl
transform-none (suc room) (c ∷ value) h =
    ap (Option.map (λ upper. to_upper c ∷ upper)) (transform-none room value (omega arith))

from_string-level_named :
    (value : Bytes)
    → length value ≤ normalized_capacity
    → from_string value ≡ some (level_named (map to_upper value))
unfolding from_string
from_string-level_named value h =
    ap (Option.map level_named) (transform-map normalized_capacity value h)

-- For a value of at most six bytes, `FromString` gives the level whose name the value spells in
-- either case, and `off` where it spells none.
pub from_string-spelling :
    (value : Bytes)
    → length value ≤ normalized_capacity
    → (level : Level) × (from_string value ≡ some level)
      × ((other : Level) → map to_upper value ≡ to_string other → other ≡ level)
      × ((map to_upper value ≡ to_string level)
          ⊎ ((level ≡ off) × ((other : Level) → map to_upper value ≢ to_string other)))
unfolding from_string
from_string-spelling value h = (
  level_named (map to_upper value),
  from_string-level_named value h,
  level_named-spelled _,
  level_named-cases _,
)

-- The uppercase copy of a value is written behind the end of the array `normalized` just where the value
-- is longer than six bytes, whatever it spells.
pub from_string-overrun : (value : Bytes) → (from_string value ≡ none) ↔ (6 < length value)
unfolding from_string
from_string-overrun value = (
  λ e. elim (dec_lt 6 (length value)) [
    | yes long ↦ long
    | no short ↦ absurd cc (sym e, from_string-level_named value (omega arith))
  ],
  λ long. ap (Option.map level_named) (transform-none 6 value long),
)
