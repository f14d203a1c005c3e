-- ===== src/Base/Search.antt =====
-- Where the searches of a byte find it.
use Prim.Native.Nat.{ℕ, ◌+◌}
use mathlib.Core.Path.{◌≡◌, refl, ap}
use mathlib.Core.List.{[], ◌∷◌, ◌++◌}
use mathlib.Core.Option
use mathlib.Core.Option.{Option, none, some}
use native.Mathlib.Omega.{arith}
use pans.Base.Lists.{length, drop-append}
use pans.Base.Text.{Bytes, index_of, find_from}

map_zero : (o : Option ℕ) → o ≡ Option.map (λ i. 0 + i) o
map_zero none = refl
map_zero (some i) = ap some (omega arith)

pub index_of-append :
    (c : ℕ) (xs ys : Bytes)
    → index_of c xs ≡ none
    → index_of c (xs ++ ys) ≡ Option.map (λ i. length xs + i) (index_of c ys)
index_of-append c [] ys h = map_zero (index_of c ys)
index_of-append c (x ∷ xs) ys h = ground (arith, index_of-append c xs ys)

pub index_of-name :
    (c : ℕ) (name rest : Bytes)
    → index_of c name ≡ none
    → index_of c (name ++ c ∷ rest) ≡ some (length name)
index_of-name c [] rest h = ground arith
index_of-name c (x ∷ name) rest h = ground (arith, index_of-name c name rest)

pub find_from-append :
    (c : ℕ) (before tail : Bytes)
    → find_from c (before ++ tail) (length before)
      ≡ Option.map (λ i. length before + i) (index_of c tail)
find_from-append c before tail = rw (drop-append before tail) refl
