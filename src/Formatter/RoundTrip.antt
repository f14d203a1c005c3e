-- ===== src/Formatter/RoundTrip.antt =====
-- Patterns written from lists of items, and what `Formatter::parse` (pans/src/Logger/formatter.cc)
-- reads from them.
use mathlib.Core.List.{map, map-append}
use pans.Base.{
  suc, ◌≡◌, refl, ap, sym, ◌∙◌, some, List, [], ◌∷◌, ◌++◌, arith, Bytes, length, append-nil,
  append_assoc,
}
use pans.Formatter.{FormatItem, literal}
use pans.Formatter.Pattern.{
  Parser, parsed, parse_round, parse, empty_parser, add_literal, push_item, collect_items,
}
use pans.Formatter.Loop.{Runs, last, parse_loop-Runs}
use pans.Macros.{Build, Assertion}
use pans.Formatter.Printing.{
  print_onto, AreSeparable, flush, merge, absorb_item, absorb, Runs-items,
}

-- `add_literal` at a text that is at hand.
add_literal_cases :
    (p : Parser) (t : Bytes)
    → p.literal_text ≡ t
    → ((add_literal p).literal_text ≡ [])
      × ((add_literal p).items ≡ p.items ++ map some (flush t []))
      × ((add_literal p).failed ≡ p.failed)
unfolding add_literal
add_literal_cases p [] e = (ground arith, ground (arith, append-nil p.items), ground arith)
add_literal_cases p (c ∷ cs) e = (ground arith, ground arith, ground arith)

module _ (p : Parser) (done : List FormatItem) (e : p.items ≡ map some done) where
  open (add_literal_cases p p.literal_text refl) use {0 as emptied, 1 as added, 2 as unfailed}

  flushed : (add_literal p).items ≡ map some (done ++ flush p.literal_text [])
  flushed = added ∙ rw (e, map-append)

  flushed_push :
      (item : FormatItem)
      → (push_item (some item) (add_literal p)).items
        ≡ map some (done ++ flush p.literal_text [] ++ item ∷ [])
  flushed_push item = rw flushed (sym (map-append some _ _))

flush-append : (t : Bytes) (items : List FormatItem) → flush t [] ++ items ≡ flush t items
flush-append [] items = refl
flush-append (c ∷ cs) items = refl

-- The parser's locals after the items, once the last literal is flushed.
abbrev Holds : Parser → List FormatItem → List Assertion → Type 0
Holds p items failed = ((add_literal p).items ≡ map some items) × ((add_literal p).failed ≡ failed)

flush_regroup :
    (done : List FormatItem) (t : Bytes) (item : FormatItem) (rest : List FormatItem)
    → (done ++ flush t [] ++ item ∷ []) ++ rest ≡ done ++ flush t (item ∷ rest)
flush_regroup done t item rest = simp append_assoc (ap (◌++◌ done) (flush-append t (item ∷ rest)))

push_Holds :
    (item : FormatItem) (p q : Parser) (done read rest : List FormatItem)
    → read ≡ rest
    → Holds q ((done ++ flush p.literal_text [] ++ item ∷ []) ++ read) (add_literal p).failed
    → Holds q (done ++ flush p.literal_text (item ∷ rest)) p.failed
push_Holds item p q done read rest e (items, failed) = (
  items
      ∙ ap (map some) (
          ap (◌++◌ (done ++ flush p.literal_text [] ++ item ∷ [])) e
          ∙ flush_regroup done p.literal_text item rest),
  failed ∙ (add_literal_cases p p.literal_text refl).2,
)

absorb-Holds :
    (items : List FormatItem) (p : Parser) (done : List FormatItem)
    → p.items ≡ map some done
    → Holds (absorb p items) (done ++ merge p.literal_text items) p.failed
absorb-Holds [] p done e = (flushed p done e, (add_literal_cases p p.literal_text refl).2)
absorb-Holds (literal t ∷ items) p done e = absorb-Holds items (absorb_item p (literal t)) done e
absorb-Holds (item ∷ items) p done e =
    push_Holds item p (absorb (absorb_item p item) items) done
      (merge (add_literal p).literal_text items) (merge [] items)
      (ap (λ t. merge t items) (add_literal_cases p p.literal_text refl).0)
      (absorb-Holds items (absorb_item p item) (done ++ flush p.literal_text [] ++ item ∷ [])
        (flushed_push p done e item))

collect_items-map : (items : List FormatItem) → collect_items (map some items) ≡ some items
unfolding collect_items
collect_items-map [] = refl
collect_items-map (item ∷ items) = rw (collect_items-map items) refl

Runs-end :
    (build : Build) (items : List FormatItem)
    → Runs build (parsed (merge [] items) []) [] (absorb empty_parser items)
unfolding parse_round
Runs-end build items =
    let (held, unfailed) = absorb-Holds items empty_parser [] refl in
    last (rw (held, collect_items-map (merge [] items), unfailed) refl)

-- The pattern that is written from items is read as these items, with adjacent literal texts joined
-- and empty ones left out, and no assertion fails. The items are separable: no date format holds a
-- closing brace, and no directive without a format stands before an opening brace.
pub parse-print_onto :
    (build : Build) (items : List FormatItem)
    → AreSeparable items []
    → parse build (print_onto items []) ≡ parsed (merge [] items) []
unfolding parse
parse-print_onto build items h =
    parse_loop-Runs (suc (length (print_onto items [])))
      (Runs-items items [] empty_parser h (Runs-end build items)) (omega arith)
