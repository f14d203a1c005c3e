-- ===== src/ThreadName/Reset.antt =====
-- What is left of a thread's name (pans/src/utils/thread_utils.cc) when it is reset.
use pans.Base.{
  ℕ, suc, ◌≤◌, ◌-◌, ◌≡◌, refl, ap, false, Option, some, List, [], ◌∷◌, ◌++◌, Bytes, is_empty,
  length, length-take, take-min, take, replicate, min, c_string, arith, ◌==◌, Bool-cases, inl, inr,
}
use pans.Macros.{Build, returns}
use pans.ThreadName.{
  Platform, ThreadState, native_buffer, native_or_default, set_thread_name, get_thread_name,
  set_native_thread_name,
}
use pans.Utf.{Width, narrow, widen, widened}
use pans.Utf.Strings.{AreScalar, units_of, widen-narrow}

-- The characters in front of the first zero, of a text with zeros behind.
c_string-zeros : (text : Bytes) (n : ℕ) → c_string (text ++ replicate (suc n) 0) ≡ c_string text
c_string-zeros [] n = refl
c_string-zeros (c ∷ text) n = elim (Bool-cases (c == 0)) [
  | inl zero ↦ rw zero refl
  | inr other ↦ rw (other, c_string-zeros text n) refl
]

c_string-native_buffer : (name : Bytes) → c_string (native_buffer name) ≡ c_string (take 15 name)
c_string-native_buffer name =
    rw (room, c_string-zeros (take (min (length name) 15) name) (15 - min (length name) 15))
      (ap c_string (take-min 15 name))
  where
    room : 16 - min (length name) 15 ≡ suc (15 - min (length name) 15)
    room = omega arith

c_string-le : (text : Bytes) → length (c_string text) ≤ length text
c_string-le [] = omega arith
c_string-le (c ∷ text) = ground (arith, c_string-le text)

widened-is_empty :
    (name : Bytes) (units : List ℕ)
    → widen Width.utf_16 name ≡ widened units
    → is_empty units ≡ false
    → is_empty name ≡ false
unfolding widen
widened-is_empty [] [] wide some_units = some_units
widened-is_empty [] (unit ∷ units) wide some_units = cc
widened-is_empty (c ∷ name) units wide some_units = refl

module _ {K : Type 0} where
  -- The two calls as documented: a name of up to 15 bytes and its zero is kept.
  pub record KeepsName (getname : K → Option Bytes) (setname : Bytes → K → K) : Type 0 where
    pub kept :
        (buffer : Bytes) (k : K)
        → length (c_string buffer) ≤ 15
        → (read : Bytes) × (getname (setname buffer k) ≡ some read)
          × (c_string read ≡ c_string buffer)

  -- On Linux, and in a release build, a name that is set and then reset by the empty name is cut to
  -- its first 15 bytes, or before a zero byte; while it is set it is read back whole. If nothing is
  -- left, the name is "UNKNOWN".
  pub set_thread_name-linux :
      (getname : K → Option Bytes) (setname : Bytes → K → K)
      → KeepsName getname setname
      → (name : Bytes) (thread : ThreadState K) → is_empty name ≡ false
      → (named : ThreadState K) × (reset : ThreadState K) × (set_thread_name
            (Platform.linux getname setname)
            Build.release_build
            name
            thread
          ≡ returns named)
        × (get_thread_name named ≡ name)
        × (set_thread_name (Platform.linux getname setname) Build.release_build [] named
            ≡ returns reset)
        × (get_thread_name reset ≡ native_or_default (c_string (take 15 name)))
  unfolding set_thread_name
  set_thread_name-linux getname setname keeps name thread e =
      let (read, got, same) = keeps.kept (native_buffer name) thread.native short in
      let k : K = setname (native_buffer name) thread.native in
      (
        record { thread_name = name; native = k },
        record { thread_name = native_or_default (c_string (take 15 name)); native = k },
        rw e refl,
        refl,
        rw (got, same, c_string-native_buffer name) refl,
        refl,
      )
    where
      short : length (c_string (native_buffer name)) ≤ 15
      short = omega (
        arith,
        ap length (c_string-native_buffer name),
        c_string-le (take 15 name),
        length-take 15 name,
      )

  -- The two calls of Windows as documented: a description is kept.
  pub record KeepsDescription (describe : K → Option (Option (List ℕ)))
      (set_description : List ℕ → K → K) : Type 0 where
    pub kept :
        (wide_name : List ℕ) (k : K)
        → (read : List ℕ) × (describe (set_description wide_name k) ≡ some (some read))
          × (c_string read ≡ c_string wide_name)

  -- On Windows, and in a release build, the name of a thread survives a reset by the empty name: this
  -- is for a name that is the UTF-8 text of code points which are no surrogates and no zeros.
  pub set_thread_name-windows :
      (describe : K → Option (Option (List ℕ))) (set_description : List ℕ → K → K)
      → KeepsDescription describe set_description
      → (text : List ℕ) (thread : ThreadState K) → AreScalar text
      → is_empty (units_of Width.utf_16 text) ≡ false
      → c_string (units_of Width.utf_16 text) ≡ units_of Width.utf_16 text
      → (name : Bytes) × (named : ThreadState K) × (reset : ThreadState K) × (narrow Width.utf_16
            (units_of Width.utf_16 text)
          ≡ some name)
        × (set_thread_name
              (Platform.windows describe set_description)
              Build.release_build
              name
              thread
            ≡ returns named)
        × (get_thread_name named ≡ name)
        × (set_thread_name (Platform.windows describe set_description) Build.release_build [] named
            ≡ returns reset)
        × (get_thread_name reset ≡ name)
  unfolding set_thread_name
  set_thread_name-windows describe set_description keeps text thread scalar some_text no_zero =
      let (name, narrowed, wide) = widen-narrow Width.utf_16 text scalar in
      let (read, got, same) = keeps.kept (units_of Width.utf_16 text) thread.native in
      let k : K = set_description (units_of Width.utf_16 text) thread.native in
      let e : is_empty name ≡ false =
        widened-is_empty name (units_of Width.utf_16 text) wide some_text in
      (
        name,
        record { thread_name = name; native = k },
        record { thread_name = name; native = k },
        narrowed,
        rw (e, set_native_thread_name, wide, some_text, no_zero) refl,
        refl,
        rw (got, same, no_zero, narrowed, e) refl,
        refl,
      )
