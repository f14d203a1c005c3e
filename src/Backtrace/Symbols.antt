-- ===== src/Backtrace/Symbols.antt =====
-- `DemangleBacktraceSymbol` (pans/src/utils/system_utils.cc) on the symbols of glibc.
use mathlib.Core.Path.{subst}
use pans.Base.{
  ℕ, ◌+◌, ◌-◌, ◌<◌, ◌≡◌, refl, ap, ◌∙◌, false, none, some, [], ◌∷◌, ◌++◌, Bytes, ◌==◌, ◌⊎◌, inl,
  inr, length, index_of, find_from, arith, length-append, drop-append, take-append, append_assoc,
}
use pans.Base.Search.{index_of-name, find_from-append}
use pans.Backtrace.{Demangle, readable, end_or, name_at, demangle_backtrace_symbol}

module _ (demangle : Demangle) (before name rest : Bytes) (stop : ℕ) where
  abbrev opened : Bytes
  opened = before ++ b'(' ∷ []

  abbrev tail : Bytes
  tail = name ++ stop ∷ rest

  -- The end is found behind the opening parenthesis.
  abbrev FoundEnd : Type 0
  FoundEnd =
      end_or (find_from b'+' (opened ++ tail) (length opened))
        (find_from b')' (opened ++ tail) (length opened))
      ≡ some (length opened + length name)

  found_stop : (c : ℕ) → index_of stop name ≡ none → stop ≡ c → index_of c tail ≡ some (length name)
  found_stop c plain same =
      subst (λ d. index_of d tail ≡ some (length name)) same (index_of-name stop name rest plain)

  found_end :
      index_of stop name ≡ none
      → (stop ≡ b'+') ⊎ ((stop ≡ b')') × (index_of b'+' tail ≡ none))
      → FoundEnd
  found_end plain (inl plus) =
      rw (find_from-append b'+' opened tail, found_stop b'+' plain plus) refl
  found_end plain (inr (close, no_plus)) =
      rw
        (
          find_from-append b'+' opened tail,
          no_plus,
          find_from-append b')' opened tail,
          found_stop b')' plain close,
        )
        refl

  name_at-found :
      0 < length name
      → name_at demangle (opened ++ tail) (length opened) (some (length opened + length name))
        ≡ readable name (demangle name)
  name_at-found some_name =
      rw (differs, drop-append opened tail, difference, take-append name (stop ∷ rest)) refl
    where
      differs : (length opened + length name == length opened) ≡ false
      differs = ground arith

      difference : length opened + length name - length opened ≡ length name
      difference = omega arith

  -- A symbol as glibc writes it, `module(name+offset)[address]` or `module(name)[address]`, gives what
  -- the demangler makes of the name between the parenthesis and the plus sign or, where no plus sign
  -- follows, the closing parenthesis; the name itself where the demangler fails.
  pub demangle_backtrace_symbol-named :
      index_of b'(' before ≡ none
      → index_of stop name ≡ none
      → (stop ≡ b'+') ⊎ ((stop ≡ b')') × (index_of b'+' tail ≡ none))
      → 0 < length name
      → demangle_backtrace_symbol demangle (some (before ++ b'(' ∷ [] ++ (name ++ stop ∷ rest)))
        ≡ readable name (demangle name)
  unfolding demangle_backtrace_symbol
  demangle_backtrace_symbol-named outside plain kind some_name =
      rw (opens, begins, found_end plain kind) (name_at-found some_name)
    where
      opens : index_of b'(' (opened ++ tail) ≡ some (length before)
      opens =
          ap (index_of b'(') (append_assoc before (b'(' ∷ []) tail)
          ∙ index_of-name b'(' before tail outside

      begins : length before + 1 ≡ length opened
      begins = omega (arith, length-append before (b'(' ∷ []))
