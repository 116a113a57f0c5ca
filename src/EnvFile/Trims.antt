-- ===== src/EnvFile/Trims.antt =====
-- White space at the end of a text does not change what `readKey` of scripts/lib/env-persistence.ts reads
-- from it.
use Prim.Native.Char.{Char}
use text.Mathlib.TextEquality.{eq_iff}
use text.Mathlib.TextLemmas.{nil-append, cons-append}
use mathlib.Core.Option
use cr3d_x.Base.{
  String, ◌<>◌, str_eq, ◌≡◌, ◌≢◌, refl, sym, ap, ◌∙◌, subst, inl, inr, Bool-cases, both_true, Bool,
  true, false, ◌&&◌, Option, none, some, is_space, trim_start, trim_end, trim,
}
use cr3d_x.EnvFile.Text.{
  is_line_end, after_prefix, first_line, some_value, value_of, value_at, or_else, find_value,
}
use cr3d_x.EnvFile.Lines.{IsPlain, IsBlank, StartsBlank, other_char, after_prefix-append}

-- A text is what `trimEnd` leaves of it, and white space.
pub trim_end-splits :
    (text : String) → (blank : String) × IsBlank blank × (text ≡ trim_end text <> blank)
unfolding trim_end
trim_end-splits String.[] = ("", tt, sym (nil-append ""))
trim_end-splits (String.◌∷◌ c text) =
    let (blank, is_blank, same) = trim_end-splits text in
    elim (Bool-cases (is_space c && str_eq (trim_end text) "")) [
      | inl gone ↦
          let (space, rest) = both_true _ _ gone in
          let all_blank : text ≡ blank =
            same ∙ ap (λ t. t <> blank) ((eq_iff (trim_end text) "").0 rest) ∙ nil-append blank in
          (
            String.◌∷◌ c blank,
            (space, is_blank),
            rw gone (rw nil-append (ap (String.◌∷◌ c) all_blank)),
          )
      | inr left ↦ (blank, is_blank, rw left (rw cons-append (ap (String.◌∷◌ c) same)))
    ]

trim_start-blank : (text : String) → IsBlank text → trim_start text ≡ ""
unfolding trim_start
trim_start-blank String.[] blank = refl
trim_start-blank (String.◌∷◌ c text) blank = rw blank.0 (trim_start-blank text blank.1)

trim_end-blank : (text : String) → IsBlank text → trim_end text ≡ ""
unfolding trim_end
trim_end-blank String.[] blank = refl
trim_end-blank (String.◌∷◌ c text) blank = rw (blank.0, trim_end-blank text blank.1) refl

trim_end-append : (text blank : String) → IsBlank blank → trim_end (text <> blank) ≡ trim_end text
unfolding trim_end
trim_end-append String.[] blank is_blank = rw nil-append (trim_end-blank blank is_blank)
trim_end-append (String.◌∷◌ c text) blank is_blank =
    rw cons-append (rw (trim_end-append text blank is_blank) refl)

trim-append : (text blank : String) → IsBlank blank → trim (text <> blank) ≡ trim text
unfolding trim trim_start
trim-append String.[] blank is_blank = rw nil-append (rw (trim_start-blank blank is_blank) refl)
trim-append (String.◌∷◌ c text) blank is_blank = elim (Bool-cases (is_space c)) [
  | inl space ↦ rw (cons-append, space) (trim-append text blank is_blank)
  | inr other ↦ rw cons-append (
      rw other (
        ap trim_end (sym (cons-append c text blank))
        ∙ trim_end-append (String.◌∷◌ c text) blank is_blank))
]

StartsBlank-of_blank : (text : String) → IsBlank text → StartsBlank text
StartsBlank-of_blank String.[] h = tt
StartsBlank-of_blank (String.◌∷◌ c text) h = h.0

-- What is found in the shorter text, if a valid key is found in the longer one.
abbrev pub Agrees : Option String → Option String → Type 0
Agrees none shorter = shorter ≡ none
Agrees (some value) shorter =
    trim value ≢ "" → (found : String) × (shorter ≡ some found) × (trim found ≡ trim value)

first_line-IsBlank : (text : String) → IsBlank text → IsBlank (first_line text)
unfolding first_line
first_line-IsBlank String.[] blank = tt
first_line-IsBlank (String.◌∷◌ c text) blank = elim (Bool-cases (is_line_end c)) [
  | inl ends ↦ rw ends tt
  | inr within ↦ rw within (blank.0, first_line-IsBlank text blank.1)
]

first_line-append-IsBlank :
    (text blank : String)
    → IsBlank blank
    → (more : String) × IsBlank more × (first_line (text <> blank) ≡ first_line text <> more)
unfolding first_line
first_line-append-IsBlank String.[] blank is_blank =
    (first_line blank, first_line-IsBlank blank is_blank, rw nil-append (sym (nil-append _)))
first_line-append-IsBlank (String.◌∷◌ c text) blank is_blank = elim (Bool-cases (is_line_end c)) [
  | inl ends ↦ ("", tt, rw (cons-append, ends) (sym (nil-append "")))
  | inr within ↦
      let (more, is_more, same) = first_line-append-IsBlank text blank is_blank in
      (
        more,
        is_more,
        rw (cons-append, within) (ap (String.◌∷◌ c) same ∙ sym (cons-append c _ more)),
      )
]

trim-blank : (text : String) → IsBlank text → trim text ≡ ""
unfolding trim
trim-blank text blank = rw (trim_start-blank text blank) (trim_end-blank "" tt)

pub cons-not_empty : (c : Char) (text : String) → str_eq (String.◌∷◌ c text) "" ≡ false
cons-not_empty c text = elim (Bool-cases (str_eq (String.◌∷◌ c text) "")) [
  | inl empty ↦ cc ((eq_iff (String.◌∷◌ c text) "").0 empty)
  | inr more ↦ more
]

some_value-Agrees :
    (value blank : String) → IsBlank blank → Agrees (some_value (value <> blank)) (some_value value)
unfolding some_value
some_value-Agrees String.[] blank is_blank = rw nil-append (elim (Bool-cases (str_eq blank "")) [
  | inl empty ↦ rw empty refl
  | inr more ↦ rw more (λ valid. elim (valid (trim-blank blank is_blank)) [ ])
])
some_value-Agrees (String.◌∷◌ c value) blank is_blank = rw cons-append (
    rw (cons-not_empty c (value <> blank), cons-not_empty c value)
      (λ valid. (
        String.◌∷◌ c value,
        refl,
        sym (rw cons-append at (trim-append (String.◌∷◌ c value) blank is_blank)),
      )))

value_of-Agrees :
    (rest : Option String) (blank : String)
    → IsBlank blank
    → Agrees (value_of (Option.map (λ r. r <> blank) rest)) (value_of rest)
unfolding value_of
value_of-Agrees none blank is_blank = refl
value_of-Agrees (some rest) blank is_blank =
    let (more, is_more, same) = first_line-append-IsBlank rest blank is_blank in
    rw same (some_value-Agrees (first_line rest) more is_more)

value_at-Agrees :
    (prefix text blank : String)
    → IsPlain prefix
    → IsBlank blank
    → Agrees (value_at prefix (text <> blank)) (value_at prefix text)
unfolding value_at
value_at-Agrees prefix text blank plain is_blank =
    rw (after_prefix-append prefix text blank plain (StartsBlank-of_blank blank is_blank))
      (value_of-Agrees (after_prefix prefix text) blank is_blank)

or_else-Agrees :
    (a a' b b' : Option String) → Agrees a a' → Agrees b b' → Agrees (or_else a b) (or_else a' b')
unfolding or_else
or_else-Agrees none a' b b' first later = rw first later
or_else-Agrees (some value) a' b b' first later =
    λ valid. let (found, at, same) = first valid in (found, rw at refl, same)

value_at-blank :
    (prefix text : String)
    → prefix ≢ ""
    → IsPlain prefix
    → IsBlank text
    → value_at prefix text ≡ none
unfolding value_at after_prefix value_of
value_at-blank String.[] text some_prefix plain blank = elim (some_prefix refl) [ ]
value_at-blank (String.◌∷◌ p prefix) String.[] some_prefix plain blank = refl
value_at-blank (String.◌∷◌ p prefix) (String.◌∷◌ c text) some_prefix plain blank =
    rw (other_char p c plain.0 blank.0) refl

find_value-blank :
    (prefix : String) (at_start : Bool) (text : String)
    → prefix ≢ ""
    → IsPlain prefix
    → IsBlank text
    → find_value prefix at_start text ≡ none
unfolding find_value or_else
find_value-blank prefix at_start String.[] some_prefix plain blank = refl
find_value-blank prefix true (String.◌∷◌ c text) some_prefix plain blank =
    rw (value_at-blank prefix (String.◌∷◌ c text) some_prefix plain blank)
      (find_value-blank prefix (is_line_end c) text some_prefix plain blank.1)
find_value-blank prefix false (String.◌∷◌ c text) some_prefix plain blank =
    find_value-blank prefix (is_line_end c) text some_prefix plain blank.1

find_value-Agrees :
    (prefix : String) (at_start : Bool) (text blank : String)
    → prefix ≢ ""
    → IsPlain prefix
    → IsBlank blank
    → Agrees (find_value prefix at_start (text <> blank)) (find_value prefix at_start text)
unfolding find_value
find_value-Agrees prefix at_start String.[] blank some_prefix plain is_blank =
    rw nil-append (rw (find_value-blank prefix at_start blank some_prefix plain is_blank) refl)
find_value-Agrees prefix true (String.◌∷◌ c text) blank some_prefix plain is_blank =
    rw cons-append (
      or_else-Agrees _ _ _ _
        (rw cons-append at (value_at-Agrees prefix (String.◌∷◌ c text) blank plain is_blank))
        (find_value-Agrees prefix (is_line_end c) text blank some_prefix plain is_blank))
find_value-Agrees prefix false (String.◌∷◌ c text) blank some_prefix plain is_blank =
    rw cons-append (find_value-Agrees prefix (is_line_end c) text blank some_prefix plain is_blank)

-- The search agrees on a text and on what `trimEnd` leaves of it.
pub find_value-trim_end :
    (prefix text : String)
    → prefix ≢ ""
    → IsPlain prefix
    → Agrees (find_value prefix true text) (find_value prefix true (trim_end text))
find_value-trim_end prefix text some_prefix plain =
    let (blank, is_blank, same) = trim_end-splits text in
    subst (λ t. Agrees (find_value prefix true t) (find_value prefix true (trim_end text)))
      (sym same) (find_value-Agrees prefix true (trim_end text) blank some_prefix plain is_blank)
