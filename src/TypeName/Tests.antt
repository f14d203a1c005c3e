-- ===== src/TypeName/Tests.antt =====
-- Runs of `ExtractTypeName` on signatures of two compilers.
use pans.Base.{◌≡◌, refl, ◌∷◌, ◌++◌, codes, arith}
use pans.TypeName.{marker, extract_type_name}
use pans.TypeName.Compilers.{extract_type_name-gcc, extract_type_name-clang}

gcc_and_clang :
    (extract_type_name (codes "f() [with T = int; U = char]") ≡ codes "int")
    × (extract_type_name (codes "f() [T = int]") ≡ codes "int")
    × (extract_type_name (codes "f() [T = int[3]]") ≡ codes "int[3")
    × (extract_type_name (codes "void f()") ≡ codes "void f()")
unfolding extract_type_name
gcc_and_clang = (refl, refl, refl, refl)

extract_type_name-gcc_example :
    extract_type_name
      (codes "f() [with " ++ marker ++ (codes "int [3]" ++ b';' ∷ codes " U = char]"))
    ≡ codes "int [3]"
extract_type_name-gcc_example =
    extract_type_name-gcc (codes "f() [with ") (codes "int [3]") (codes " U = char]") refl refl
      (omega arith)

-- The closing bracket of the type is taken for that of the signature.
extract_type_name-clang_example :
    extract_type_name (codes "f() [" ++ marker ++ (codes "int[3" ++ b']' ∷ codes "]"))
    ≡ codes "int[3"
extract_type_name-clang_example =
    extract_type_name-clang (codes "f() [") (codes "int[3") (codes "]") refl refl refl refl
      (omega arith)
