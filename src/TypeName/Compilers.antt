-- ===== src/TypeName/Compilers.antt =====
-- What `ExtractTypeName` (pans/include/pans/type_name.h) finds in the signatures of GCC and Clang.
use pans.Base.{
  ◌+◌, ◌-◌, ◌<◌, ◌≡◌, refl, false, none, some, ◌∷◌, ◌++◌, Bytes, leb, length, index_of, arith,
  length-append, drop-append, take-append,
}
use pans.Base.Search.{index_of-append, index_of-name, find_from-append}
use pans.TypeName.{marker, find_text, substring, extract_type_name}

-- The text behind the marker, up to an end that is found there.
substring-found :
    (before name rest : Bytes)
    → 0 < length name
    → substring (before ++ (name ++ rest)) (length before) (some (length before + length name))
      ≡ name
substring-found before name rest some_name =
    rw (leb_false, drop-append before (name ++ rest), difference) (take-append name rest)
  where
    leb_false : leb (length before + length name) (length before) ≡ false
    leb_false = ground arith

    difference : length before + length name - length before ≡ length name
    difference = omega arith

begin : (prefix : Bytes) → length prefix + 4 ≡ length (prefix ++ marker)
begin prefix = omega (arith, length-append prefix marker)

-- In a signature as GCC writes it, the name that ends at the first semicolon behind the marker is
-- found, whatever brackets it holds; the marker does not stand earlier in the signature.
pub extract_type_name-gcc :
    (prefix name rest : Bytes)
    → find_text marker (prefix ++ marker ++ (name ++ b';' ∷ rest)) ≡ some (length prefix)
    → index_of b';' name ≡ none
    → 0 < length name
    → extract_type_name (prefix ++ marker ++ (name ++ b';' ∷ rest)) ≡ name
unfolding extract_type_name
extract_type_name-gcc prefix name rest found plain some_name =
    rw
      (
        found,
        begin prefix,
        find_from-append b';' (prefix ++ marker) (name ++ b';' ∷ rest),
        index_of-name b';' name rest plain,
      )
      (substring-found (prefix ++ marker) name (b';' ∷ rest) some_name)

-- In a signature without a semicolon behind the marker, as Clang writes it, the name ends at the first
-- closing bracket behind the marker, where none stands before: a name that holds a closing bracket
-- itself is cut off there.
pub extract_type_name-clang :
    (prefix name rest : Bytes)
    → find_text marker (prefix ++ marker ++ (name ++ b']' ∷ rest)) ≡ some (length prefix)
    → index_of b']' prefix ≡ none
    → index_of b']' name ≡ none
    → index_of b';' (name ++ b']' ∷ rest) ≡ none
    → 0 < length name
    → extract_type_name (prefix ++ marker ++ (name ++ b']' ∷ rest)) ≡ name
unfolding extract_type_name
extract_type_name-clang prefix name rest found outside inside no_semicolon some_name =
    rw
      (
        found,
        begin prefix,
        find_from-append b';' (prefix ++ marker) (name ++ b']' ∷ rest),
        no_semicolon,
        bracket,
      )
      (substring-found (prefix ++ marker) name (b']' ∷ rest) some_name)
  where
    before : index_of b']' (prefix ++ marker) ≡ none
    before = index_of-append b']' prefix marker outside

    bracket :
        index_of b']' (prefix ++ marker ++ (name ++ b']' ∷ rest))
        ≡ some (length (prefix ++ marker) + length name)
    bracket =
        rw
          (
            index_of-append b']' (prefix ++ marker) (name ++ b']' ∷ rest) before,
            index_of-name b']' name rest inside,
          )
          refl
