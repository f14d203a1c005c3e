-- ===== src/Formatter/Loop.antt =====
-- The loop of `Formatter::parse` (pans/src/Logger/formatter.cc) ends within the fuel that the
-- pattern's length gives.
use mathlib.Core.List.{List}
use pans.Base.{
  ℕ, zero, suc, ◌≤◌, ◌<◌, ◌≡◌, ◌≢◌, refl, Option, none, some, [], ◌∷◌, arith, Bytes, ◌==◌, index_of,
  length, length-drop, Bool-cases, inl, inr,
}
use pans.Formatter.Pattern.{
  Parser, Parsed, out_of_fuel, Round, go_on, stop, take_format, braced_format, create_format_item,
  format_item_factory, finish_directive, parse_directive, parse_round, follow, parse_loop, parse,
  empty_parser, add_literal, finish_parse,
}
use pans.Formatter.{FormatItem}
use pans.Macros.{Build}

-- What a round may end with, behind `rest`: a shorter rest, or a result.
abbrev Advances : Bytes → Round → Type 0
Advances rest (go_on rest' p) = length rest' < length rest
Advances rest (stop result) = result ≢ out_of_fuel

create_format_item-Advances :
    (build : Build) (c : ℕ) (found : Option (Bytes → FormatItem)) (item_format rest before : Bytes)
    (p : Parser)
    → length rest < length before
    → Advances before (create_format_item build c found item_format rest p)
unfolding create_format_item
create_format_item-Advances build c (some make) item_format rest before p h = h
create_format_item-Advances Build.release_build c none item_format rest before p h = h
create_format_item-Advances Build.debug_build c none item_format rest before p h = λ e. cc

-- What follows a format is no longer than the text that starts with it.
abbrev Shortens : Bytes → Option (Bytes × Bytes) → Type 0
Shortens rest none = Unit
Shortens rest (some (item_format, after)) = length after ≤ length rest

braced_format-Shortens :
    (c : ℕ) (closing : Option ℕ) (cs : Bytes) → Shortens (c ∷ cs) (braced_format closing cs)
unfolding braced_format
braced_format-Shortens c none cs = tt
braced_format-Shortens c (some zero) cs = tt
braced_format-Shortens c (some (suc i)) cs = omega (arith, length-drop (suc (suc i)) cs)

take_format-Shortens : (rest : Bytes) → Shortens rest (take_format rest)
unfolding take_format
take_format-Shortens [] = omega arith
take_format-Shortens (c ∷ cs) = elim (Bool-cases (c == b'{')) [
  | inl opening ↦ rw opening (braced_format-Shortens c (index_of b'}' cs) cs)
  | inr other ↦ rw other (omega arith)
]

finish_directive-Advances :
    (build : Build) (c : ℕ) (found : Option (Bytes × Bytes)) (rest before : Bytes) (p : Parser)
    → Shortens rest found
    → length rest < length before
    → Advances before (finish_directive build c found p)
unfolding finish_directive
finish_directive-Advances Build.release_build c none rest before p h lt = λ e. cc
finish_directive-Advances Build.debug_build c none rest before p h lt = λ e. cc
finish_directive-Advances build c (some (item_format, after)) rest before p h lt =
    create_format_item-Advances build c (format_item_factory c) item_format after before p
      (omega arith)

parse_directive-Advances :
    (build : Build) (rest before : Bytes) (p : Parser)
    → length rest < length before
    → Advances before (parse_directive build rest p)
unfolding parse_directive
parse_directive-Advances Build.release_build [] before p h = λ e. cc
parse_directive-Advances Build.debug_build [] before p h = λ e. cc
parse_directive-Advances build (c ∷ rest) before p h = elim (Bool-cases (c == b'%')) [
  | inl percent ↦ rw percent (omega arith)
  | inr other ↦ rw other (
      finish_directive-Advances build c (take_format rest) rest before (add_literal p)
        (take_format-Shortens rest) (omega arith))
]

finish_parse-ne-out_of_fuel :
    (build : Build) (items : Option (List FormatItem)) (p : Parser)
    → finish_parse build items p ≢ out_of_fuel
unfolding finish_parse
finish_parse-ne-out_of_fuel Build.release_build none p = λ e. cc
finish_parse-ne-out_of_fuel Build.debug_build none p = λ e. cc
finish_parse-ne-out_of_fuel build (some items) p = λ e. cc

pub parse_round-Advances :
    (build : Build) (rest : Bytes) (p : Parser) → Advances rest (parse_round build rest p)
unfolding parse_round
parse_round-Advances build [] p = finish_parse-ne-out_of_fuel build _ (add_literal p)
parse_round-Advances build (c ∷ rest) p = elim (Bool-cases (c == b'%')) [
  | inl percent ↦ rw percent (parse_directive-Advances build rest (c ∷ rest) p (omega arith))
  | inr other ↦ rw other (omega arith)
]

-- The runs of the loop: from a rest and the locals to a result.
pub data Runs (build : Build) (result : Parsed) : Bytes → Parser → Type 0 where
  last :
      {rest : Bytes} {p : Parser}
      → parse_round build rest p ≡ stop result
      → Runs build result rest p
  more :
      {rest rest' : Bytes} {p p' : Parser}
      → parse_round build rest p ≡ go_on rest' p'
      → Runs build result rest' p'
      → Runs build result rest p

-- With more fuel than bytes the loop gives what its runs give.
pub parse_loop-Runs :
    {build : Build} {result : Parsed} {rest : Bytes} {p : Parser} (fuel : ℕ)
    → Runs build result rest p
    → length rest < fuel
    → parse_loop build fuel rest p ≡ result
unfolding parse_loop
parse_loop-Runs zero r h = absurd (omega arith)
parse_loop-Runs (suc fuel) (last e) h = rw e refl
parse_loop-Runs {build} {rest} {p} (suc fuel) (more e r) h =
    rw e (parse_loop-Runs fuel r (omega (arith, rw e at (parse_round-Advances build rest p))))

follow-ne-out_of_fuel :
    (rest : Bytes) (again : Bytes → Parser → Parsed)
    → ((rest' : Bytes) (q : Parser) → length rest' < length rest → again rest' q ≢ out_of_fuel)
    → (round : Round) → Advances rest round
    → follow again round ≢ out_of_fuel
follow-ne-out_of_fuel rest again ends (go_on rest' q) shorter = ends rest' q shorter
follow-ne-out_of_fuel rest again ends (stop result) done = done

parse_loop-ne-out_of_fuel :
    (build : Build) (fuel : ℕ) (rest : Bytes) (p : Parser)
    → length rest < fuel
    → parse_loop build fuel rest p ≢ out_of_fuel
unfolding parse_loop
parse_loop-ne-out_of_fuel build zero rest p h = absurd (omega arith)
parse_loop-ne-out_of_fuel build (suc fuel) rest p h =
    follow-ne-out_of_fuel rest (parse_loop build fuel)
      (λ rest' q shorter. parse_loop-ne-out_of_fuel build fuel rest' q (omega arith))
      (parse_round build rest p) (parse_round-Advances build rest p)

-- `parse` ends on every pattern: the fuel that its length gives is enough.
pub parse-ne-out_of_fuel :
    (build : Build) (pattern_text : Bytes) → parse build pattern_text ≢ out_of_fuel
unfolding parse
parse-ne-out_of_fuel build pattern_text =
    parse_loop-ne-out_of_fuel build (suc (length pattern_text)) pattern_text empty_parser
      (omega arith)
