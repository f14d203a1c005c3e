-- ===== src/ThreadName/Tests.antt =====
-- Runs of the thread names, and their theorems with concrete systems.
use pans.Base.{ℕ, ◌≡◌, refl, Option, some, List, [], ◌∷◌, Bytes, codes, take, c_string}
use pans.Macros.{Build, returns, aborts}
use pans.ThreadName.{Platform, ThreadState, native_or_default, set_thread_name, get_thread_name}
use pans.ThreadName.Reset.{
  KeepsName, KeepsDescription, set_thread_name-linux, set_thread_name-windows,
}
use pans.Utf.{Width, narrow, wide_units}
use pans.Utf.Strings.{units_of}

-- A system that keeps what it is given.
abbrev getname : Bytes → Option Bytes
getname k = some k

abbrev setname : Bytes → Bytes → Bytes
setname buffer k = buffer

getname-KeepsName : KeepsName getname setname
getname-KeepsName = record { kept = λ buffer k short. (buffer, refl, refl) }

abbrev describe : List ℕ → Option (Option (List ℕ))
describe k = some (some k)

abbrev set_description : List ℕ → List ℕ → List ℕ
set_description wide_name k = wide_name

describe-KeepsDescription : KeepsDescription describe set_description
describe-KeepsDescription = record { kept = λ wide_name k. (wide_name, refl, refl) }

abbrev thread : ThreadState Bytes
thread = record { thread_name = codes "main"; native = codes "main" }

empty_aborts : set_thread_name (Platform.linux getname setname) Build.debug_build [] thread ≡ aborts
unfolding set_thread_name
empty_aborts = refl

set_thread_name-linux_example :
    (named : ThreadState Bytes) × (reset : ThreadState Bytes) × (set_thread_name
        (Platform.linux getname setname)
        Build.release_build
        (codes "a-very-long-worker-name")
        thread
      ≡ returns named)
    × (get_thread_name named ≡ codes "a-very-long-worker-name")
    × (set_thread_name (Platform.linux getname setname) Build.release_build [] named
        ≡ returns reset)
    × (get_thread_name reset
        ≡ native_or_default (c_string (take 15 (codes "a-very-long-worker-name"))))
set_thread_name-linux_example =
    set_thread_name-linux getname setname getname-KeepsName (codes "a-very-long-worker-name") thread
      refl

-- "é€" and a sign of two units.
abbrev text : List ℕ
text = 0xe9 ∷ 0x20ac ∷ 0x1f600 ∷ []

set_thread_name-windows_example :
    (name : Bytes) × (named : ThreadState (List ℕ)) × (reset : ThreadState (List ℕ)) × (narrow
        Width.utf_16
        (units_of Width.utf_16 text)
      ≡ some name)
    × (set_thread_name
          (Platform.windows describe set_description)
          Build.release_build
          name
          (record { thread_name = codes "x"; native = [] })
        ≡ returns named)
    × (get_thread_name named ≡ name)
    × (set_thread_name (Platform.windows describe set_description) Build.release_build [] named
        ≡ returns reset)
    × (get_thread_name reset ≡ name)
unfolding wide_units
set_thread_name-windows_example =
    set_thread_name-windows describe set_description describe-KeepsDescription text
      (record { thread_name = codes "x"; native = [] }) (refl, (refl, (refl, tt))) refl refl
