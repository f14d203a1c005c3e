-- ===== src/Formatter/Printing.antt =====
-- Patterns written from lists of items, and the rounds of `Formatter::parse`
-- (pans/src/Logger/formatter.cc) on them.
use pans.Base.{
  ℕ, ◌≡◌, refl, some, List, [], ◌∷◌, ◌++◌, arith, Bytes, ◌==◌, ==_iff, if◌then◌else◌, index_of,
  length, take-append, drop-append_cons, is_none, Bool, true, false, Bool-cases, inl, inr, not,
  append-nil, append_assoc,
}
use pans.Formatter.{
  FormatItem, literal, level, elapsed, logger_name, thread_id, new_line, date_time, microseconds,
  file_name, line, tab, fiber_id, thread_name, message,
}
use pans.Formatter.Pattern.{
  Parser, Parsed, go_on, take_format, create_format_item, format_item_factory, parse_round,
  add_literal, push_item,
}
use pans.Formatter.Loop.{Runs, more}
use pans.Macros.{Build}

-- A literal text in a pattern: each '%' is doubled.
abbrev pub escape : Bytes → Bytes
escape [] = []
escape (c ∷ cs) = if c == b'%' then b'%' ∷ b'%' ∷ escape cs else c ∷ escape cs

-- The letter of an item's directive; a literal has none.
abbrev pub letter : FormatItem → ℕ
letter (literal _) = 0
letter message = b'm'
letter level = b'p'
letter elapsed = b'r'
letter logger_name = b'c'
letter thread_id = b't'
letter new_line = b'n'
letter (date_time _) = b'd'
letter microseconds = b'u'
letter file_name = b'f'
letter line = b'l'
letter tab = b'T'
letter fiber_id = b'F'
letter thread_name = b'N'

-- A date format in braces; an empty one is left out.
abbrev pub braces : Bytes → Bytes → Bytes
braces [] rest = rest
braces (c ∷ cs) rest = b'{' ∷ ((c ∷ cs) ++ b'}' ∷ rest)

abbrev pub print_item : FormatItem → Bytes → Bytes
print_item (literal t) rest = escape t ++ rest
print_item (date_time f) rest = b'%' ∷ b'd' ∷ braces f rest
print_item item rest = b'%' ∷ letter item ∷ rest

-- The pattern of the items, in front of more text.
abbrev pub print_onto : List FormatItem → Bytes → Bytes
print_onto [] rest = rest
print_onto (item ∷ items) rest = print_item item (print_onto items rest)

abbrev pub starts_with_brace : Bytes → Bool
starts_with_brace [] = false
starts_with_brace (c ∷ cs) = c == b'{'

-- A date format holds no closing brace, and no directive without braces stands before an opening
-- brace, which would be read as its own.
abbrev pub is_separable : FormatItem → Bytes → Bool
is_separable (literal t) rest = true
is_separable (date_time []) rest = not (starts_with_brace rest)
is_separable (date_time (c ∷ cs)) rest = is_none (index_of b'}' (c ∷ cs))
is_separable item rest = not (starts_with_brace rest)

abbrev pub AreSeparable : List FormatItem → Bytes → Type 0
AreSeparable [] rest = Unit
AreSeparable (item ∷ items) rest =
    (is_separable item (print_onto items rest) ≡ true) × AreSeparable items rest

-- What the parser makes of the items: adjacent literals are one, and an empty one is none.
abbrev pub flush : Bytes → List FormatItem → List FormatItem
flush [] items = items
flush (c ∷ cs) items = literal (c ∷ cs) ∷ items

abbrev pub merge : Bytes → List FormatItem → List FormatItem
merge text [] = flush text []
merge text (literal t ∷ items) = merge (text ++ t) items
merge text (item ∷ items) = flush text (item ∷ merge [] items)

abbrev pub absorb_item : Parser → FormatItem → Parser
absorb_item p (literal t) = record p { literal_text = p.literal_text ++ t }
absorb_item p item = push_item (some item) (add_literal p)

-- The locals of the parser behind the pattern of the items.
abbrev pub absorb : Parser → List FormatItem → Parser
absorb p [] = p
absorb p (item ∷ items) = absorb (absorb_item p item) items

take_format_plain :
    (rest : Bytes) → starts_with_brace rest ≡ false → take_format rest ≡ some ([], rest)
unfolding take_format
take_format_plain [] h = refl
take_format_plain (c ∷ cs) h = rw h

index_of-append_stop :
    (c : ℕ) (f rest : Bytes)
    → is_none (index_of c f) ≡ true
    → index_of c (f ++ c ∷ rest) ≡ some (length f)
index_of-append_stop c [] rest h = ground arith
index_of-append_stop c (x ∷ f) rest h = ground (arith, index_of-append_stop c f rest)

take_format_braced :
    (c : ℕ) (cs rest : Bytes)
    → is_none (index_of b'}' (c ∷ cs)) ≡ true
    → take_format (braces (c ∷ cs) rest) ≡ some (c ∷ cs, rest)
unfolding take_format
take_format_braced c cs rest h =
    rw
      (
        index_of-append_stop b'}' (c ∷ cs) rest h,
        take-append cs (b'}' ∷ rest),
        drop-append_cons cs b'}' rest,
      )
      refl

module _ (build : Build) where
  doubled :
      (rest : Bytes) (p : Parser)
      → parse_round build (b'%' ∷ b'%' ∷ rest) p
        ≡ go_on rest (record p { literal_text = p.literal_text ++ b'%' ∷ [] })
  unfolding parse_round
  doubled rest p = refl

  kept :
      (c : ℕ) (rest : Bytes) (p : Parser)
      → (c == b'%') ≡ false
      → parse_round build (c ∷ rest) p
        ≡ go_on rest (record p { literal_text = p.literal_text ++ c ∷ [] })
  unfolding parse_round
  kept c rest p other = rw other refl

module _ {build : Build} {result : Parsed} where
  -- One directive, whose format and rest are read as given.
  Runs-directive :
      (item : FormatItem) (c : ℕ) (make : Bytes → FormatItem) (text item_format rest : Bytes)
      (p : Parser)
      → format_item_factory c ≡ some make
      → make item_format ≡ item
      → (c == b'%') ≡ false
      → take_format text ≡ some (item_format, rest)
      → Runs build result rest (push_item (some item) (add_literal p))
      → Runs build result (b'%' ∷ c ∷ text) p
  unfolding parse_round create_format_item
  Runs-directive item c make text item_format rest p found made other format r =
      more (rw (other, format, found, made) refl) r

  Runs-simple :
      (item : FormatItem) (c : ℕ) (rest : Bytes) (p : Parser)
      → format_item_factory c ≡ some (λ _. item)
      → (c == b'%') ≡ false
      → not (starts_with_brace rest) ≡ true
      → Runs build result rest (push_item (some item) (add_literal p))
      → Runs build result (b'%' ∷ c ∷ rest) p
  Runs-simple item c rest p found other h r =
      Runs-directive item c (λ _. item) rest [] rest p found refl other
        (take_format_plain rest (ground arith)) r

  Runs-escape :
      (t rest : Bytes) (p : Parser)
      → Runs build result rest (record p { literal_text = p.literal_text ++ t })
      → Runs build result (escape t ++ rest) p
  Runs-escape [] rest p r = rw append-nil at r
  Runs-escape (c ∷ cs) rest p r = elim (Bool-cases (c == b'%')) [
    | inl percent ↦ rw percent (
        more (doubled build (escape cs ++ rest) p)
          (Runs-escape cs rest _ (rw (append_assoc, ← (==_iff c b'%').0 percent) r)))
    | inr other ↦ rw other (
        more (kept build c (escape cs ++ rest) p other) (Runs-escape cs rest _ (rw append_assoc r)))
  ]

  Runs-item :
      (item : FormatItem) (rest : Bytes) (p : Parser)
      → is_separable item rest ≡ true
      → Runs build result rest (absorb_item p item)
      → Runs build result (print_item item rest) p
  unfolding format_item_factory
  Runs-item (literal t) rest p h r = Runs-escape t rest p r
  Runs-item (date_time []) rest p h r =
      Runs-directive (date_time []) b'd' date_time rest [] rest p refl refl refl
        (take_format_plain rest (ground arith)) r
  Runs-item (date_time (c ∷ cs)) rest p h r =
      Runs-directive (date_time (c ∷ cs)) b'd' date_time _ (c ∷ cs) rest p refl refl refl
        (take_format_braced c cs rest h) r
  Runs-item item rest p h r = Runs-simple item (letter item) rest p refl refl h r

  pub Runs-items :
      (items : List FormatItem) (rest : Bytes) (p : Parser)
      → AreSeparable items rest
      → Runs build result rest (absorb p items)
      → Runs build result (print_onto items rest) p
  Runs-items [] rest p h r = r
  Runs-items (item ∷ items) rest p (now, later) r =
      Runs-item item (print_onto items rest) p now
        (Runs-items items rest (absorb_item p item) later r)
