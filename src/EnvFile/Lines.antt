-- ===== src/EnvFile/Lines.antt =====
-- What the search of `readKey` in scripts/lib/env-persistence.ts finds in a longer or a shorter text.
use Prim.Native.Char.{Char, code}
use text.Mathlib.TextEquality.{Char-path}
use text.Mathlib.TextLemmas.{nil-append, cons-append}
use mathlib.Core.Option
use cr3d_x.Base.{
  String, ◌<>◌, ◌≡◌, refl, sym, ap, ◌∙◌, subst, inl, inr, Bool-cases, Bool, true, false, Option,
  none, some, ◌==◌, arith, is_space,
}
use cr3d_x.EnvFile.Text.{
  is_line_end, after_prefix, first_line, some_value, value_of, value_at, or_else, find_value,
}

abbrev pub AllChars : (Char → Type 0) → String → Type 0
AllChars P String.[] = Unit {0}
AllChars P (String.◌∷◌ c s) = P c × AllChars P s

-- No white space, so no end of a line.
abbrev pub IsPlain : String → Type 0
IsPlain = AllChars (λ c. is_space c ≡ false)

abbrev pub IsBlank : String → Type 0
IsBlank = AllChars (λ c. is_space c ≡ true)

-- It has nothing that a plain prefix could go on with.
abbrev pub StartsBlank : String → Type 0
StartsBlank String.[] = Unit {0}
StartsBlank (String.◌∷◌ c s) = is_space c ≡ true

space-is_line_end : (c : Char) → is_line_end c ≡ true → is_space c ≡ true
unfolding is_line_end is_space
space-is_line_end c e = ground arith

pub plain_char : (c : Char) → is_space c ≡ false → is_line_end c ≡ false
plain_char c plain = elim (Bool-cases (is_line_end c)) [
  | inl ends ↦ cc (plain, space-is_line_end c ends)
  | inr within ↦ within
]

pub other_char : (p c : Char) → is_space p ≡ false → is_space c ≡ true → (code p == code c) ≡ false
other_char p c plain blank = elim (Bool-cases (code p == code c)) [
  | inl same ↦ cc (plain, blank, ap is_space (Char-path p c (ground (arith, same))))
  | inr other ↦ other
]

pub after_prefix-append :
    (prefix text more : String)
    → IsPlain prefix
    → StartsBlank more
    → after_prefix prefix (text <> more)
      ≡ Option.map (λ rest. rest <> more) (after_prefix prefix text)
unfolding after_prefix
after_prefix-append String.[] text more plain blank = refl
after_prefix-append (String.◌∷◌ p prefix) String.[] String.[] plain blank = refl
after_prefix-append (String.◌∷◌ p prefix) String.[] (String.◌∷◌ c more) plain blank =
    rw nil-append (rw (other_char p c plain.0 blank) refl)
after_prefix-append (String.◌∷◌ p prefix) (String.◌∷◌ c text) more plain blank =
    elim (Bool-cases (code p == code c)) [
      | inl same ↦ rw (cons-append, same) (after_prefix-append prefix text more plain.1 blank)
      | inr other ↦ rw (cons-append, other) refl
    ]

pub first_line-append :
    (line more : String)
    → AllChars (λ c. is_line_end c ≡ false) line
    → first_line (line <> more) ≡ line <> first_line more
unfolding first_line
first_line-append String.[] more within = rw nil-append (rw nil-append refl)
first_line-append (String.◌∷◌ c line) more within = rw cons-append (
    rw within.0 (
      ap (String.◌∷◌ c) (first_line-append line more within.1)
      ∙ sym (cons-append c line (first_line more))))

-- An end of a line hides what stands behind it.
first_line-newline : (text more : String) → first_line (text <> ("\n" <> more)) ≡ first_line text
unfolding first_line is_line_end
first_line-newline String.[] more = rw nil-append (rw cons-append refl)
first_line-newline (String.◌∷◌ c text) more = elim (Bool-cases (is_line_end c)) [
  | inl ends ↦ rw (cons-append, ends) refl
  | inr within ↦ rw (cons-append, within, first_line-newline text more) refl
]

pub newline-cons : (more : String) → "\n" <> more ≡ String.◌∷◌ "\n" more
newline-cons more = cons-append "\n" "" more ∙ ap (String.◌∷◌ "\n") (nil-append more)

newline_blank : (more : String) → StartsBlank ("\n" <> more)
unfolding is_space
newline_blank more = subst StartsBlank (sym (newline-cons more)) refl

pub value_at-empty : (prefix : String) → value_at prefix "" ≡ none
unfolding value_at value_of after_prefix first_line some_value
value_at-empty String.[] = refl
value_at-empty (String.◌∷◌ p prefix) = refl

value_of-newline :
    (rest : Option String) (more : String)
    → value_of (Option.map (λ r. r <> ("\n" <> more)) rest) ≡ value_of rest
unfolding value_of
value_of-newline none more = refl
value_of-newline (some rest) more = ap some_value (first_line-newline rest more)

value_at-newline :
    (prefix text more : String)
    → IsPlain prefix
    → value_at prefix (text <> ("\n" <> more)) ≡ value_at prefix text
unfolding value_at
value_at-newline prefix text more plain =
    ap value_of (after_prefix-append prefix text ("\n" <> more) plain (newline_blank more))
    ∙ value_of-newline (after_prefix prefix text) more

or_else_assoc : (a b c : Option String) → or_else a (or_else b c) ≡ or_else (or_else a b) c
unfolding or_else
or_else_assoc none b c = refl
or_else_assoc (some a) b c = refl

-- Behind an end of a line the search starts again, where it has found nothing before.
pub find_value-newline :
    (prefix : String) (at_start : Bool) (text more : String)
    → IsPlain prefix
    → find_value prefix at_start (text <> ("\n" <> more))
      ≡ or_else (find_value prefix at_start text) (find_value prefix true more)
unfolding find_value or_else is_line_end
find_value-newline prefix true String.[] more plain =
    let first = rw nil-append at (value_at-newline prefix "" more plain) in
    let none_first = rw newline-cons at (first ∙ value_at-empty prefix) in
    rw nil-append (rw newline-cons (rw none_first refl))
find_value-newline prefix false String.[] more plain = rw nil-append (rw newline-cons refl)
find_value-newline prefix true (String.◌∷◌ c text) more plain =
    let first = rw cons-append at (value_at-newline prefix (String.◌∷◌ c text) more plain) in
    let later = find_value-newline prefix (is_line_end c) text more plain in
    rw cons-append (rw (first, later, or_else_assoc) refl)
find_value-newline prefix false (String.◌∷◌ c text) more plain =
    rw cons-append (find_value-newline prefix (is_line_end c) text more plain)
