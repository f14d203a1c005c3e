-- ===== src/ThreadName.antt =====
-- pans/src/utils/thread_utils.cc: the name of a thread, which the library keeps whole and the system
-- keeps in its own form. The system's calls are parameters, one set for each platform.
pub mod Reset
mod Tests
use pans.Base.{
  ℕ, ◌-◌, false, Option, none, some, List, [], ◌++◌, Bytes, codes, if◌then◌else◌, is_empty, length,
  take, replicate, min, c_string,
}
use pans.Macros.{Build, Control, falls_through, returns, continues, breaks, aborts, assert_noeffect}
use pans.Utf.{Width, wstring_to_string, string_to_wstring}

-- `pthread_getname_np` with an array of sixteen bytes, where `none` is a failure, and
-- `pthread_setname_np`; `GetThreadDescription`, which may fail or give a null pointer, and
-- `SetThreadDescription`; nothing elsewhere. `K` is what the system keeps for a thread.
pub data Platform (K : Type 0) : Type 0 where
  linux : (K → Option Bytes) → (Bytes → K → K) → Platform K
  windows : (K → Option (Option (List ℕ))) → (List ℕ → K → K) → Platform K
  other : Platform K

abbrev pub then_on {ℓ κ} : {A : Type ℓ} {B : Type κ} → Control A → (A → Control B) → Control B
then_on (returns a) f = f a
then_on falls_through f = falls_through
then_on continues f = continues
then_on breaks f = breaks
then_on aborts f = aborts

abbrev pub default_thread_name : Bytes
default_thread_name = codes "UNKNOWN"

-- The array of sixteen bytes, zero-filled behind the name.
abbrev pub native_buffer : Bytes → Bytes
native_buffer name = take (min (length name) 15) name ++ replicate (16 - min (length name) 15) 0

-- The name that an empty one stands for.
abbrev pub native_or_default : Bytes → Bytes
native_or_default native_name = if is_empty native_name then default_thread_name else native_name

-- `t_thread_name`, and what the system keeps.
pub record ThreadState (K : Type 0) : Type 0 where
  pub thread_name : Bytes
  pub native : K

abbrev pub linux_name : Option Bytes → Control Bytes
linux_name none = returns []
linux_name (some native_name) = returns (c_string native_name)

abbrev pub windows_name : Build → Option (Option (List ℕ)) → Control Bytes
windows_name build (some (some raw_name)) = wstring_to_string build Width.utf_16 (c_string raw_name)
windows_name build _ = returns []

module _ {K : Type 0} where
  -- `GetNativeThreadName`.
  unfoldable pub get_native_thread_name : Platform K → Build → K → Control Bytes
  get_native_thread_name (Platform.linux getname setname) build k = linux_name (getname k)
  get_native_thread_name (Platform.windows describe set_description) build k =
      windows_name build (describe k)
  get_native_thread_name Platform.other build k = returns []

  abbrev pub describe_as : (List ℕ → K → K) → K → List ℕ → Control K
  describe_as set_description k wide_name =
      if is_empty wide_name then returns k else returns (set_description (c_string wide_name) k)

  -- `SetNativeThreadName`.
  unfoldable pub set_native_thread_name : Platform K → Build → Bytes → K → Control K
  set_native_thread_name (Platform.linux getname setname) build name k =
      returns (setname (native_buffer name) k)
  set_native_thread_name (Platform.windows describe set_description) build name k =
      then_on (string_to_wstring build Width.utf_16 name) (describe_as set_description k)
  set_native_thread_name Platform.other build name k = returns k

  abbrev pub reset_name : Platform K → Build → K → Control (ThreadState K)
  reset_name platform build k =
      then_on (get_native_thread_name platform build k) (λ native_name.
        returns (record { thread_name = native_or_default native_name; native = k }))

  -- Behind the assertion for an empty name.
  abbrev pub after_assertion :
      Control (Unit {0}) → Control (ThreadState K) → Control (ThreadState K)
  after_assertion falls_through rest = rest
  after_assertion _ rest = aborts

  -- `SetThreadName`.
  unfoldable pub set_thread_name :
      Platform K → Build → Bytes → ThreadState K → Control (ThreadState K)
  unfolding get_native_thread_name set_native_thread_name
  set_thread_name platform build name thread =
      if is_empty name
      then after_assertion (assert_noeffect build false).control
          (reset_name platform build thread.native)
      else then_on (set_native_thread_name platform build name thread.native)
          (λ k. returns (record { thread_name = name; native = k }))

  -- `GetThreadName`.
  abbrev pub get_thread_name : ThreadState K → Bytes
  get_thread_name thread = thread.thread_name

  -- The first name of a thread.
  abbrev pub start_thread : Platform K → Build → K → Control (ThreadState K)
  start_thread platform build k =
      then_on (get_native_thread_name platform build k)
        (λ native_name. returns (record { thread_name = native_name; native = k }))
