-- ===== src/LogLevel/Tests.antt =====
-- Runs of `ToString` and `FromString`, and the theorems at concrete values.
use mathlib.Core.List.{map}
use pans.Base.{◌≡◌, ◌≢◌, ◌↔◌, ◌⊎◌, ◌<◌, refl, none, some, arith, codes, length}
use pans.LogLevel.{Level, off, to_string, to_upper, from_string}
use pans.LogLevel.Names.{from_string-spelling, from_string-overrun}

mixed_case : from_string (codes "eRRor") ≡ some Level.error
unfolding from_string
mixed_case = refl

no_level : from_string (codes "notice") ≡ some off
unfolding from_string
no_level = refl

too_long : from_string (codes "warning") ≡ none
unfolding from_string
too_long = refl

from_string-spelling_example :
    (level : Level) × (from_string (codes "info") ≡ some level)
    × ((other : Level) → map to_upper (codes "info") ≡ to_string other → other ≡ level)
    × ((map to_upper (codes "info") ≡ to_string level)
        ⊎ ((level ≡ off) × ((other : Level) → map to_upper (codes "info") ≢ to_string other)))
from_string-spelling_example = from_string-spelling (codes "info") (omega arith)

from_string-overrun_example :
    (from_string (codes "warning") ≡ none) ↔ (6 < length (codes "warning"))
from_string-overrun_example = from_string-overrun (codes "warning")
