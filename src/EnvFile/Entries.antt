-- ===== src/EnvFile/Entries.antt =====
-- What `readKey` of scripts/lib/env-persistence.ts reads from a text that `render` has extended.
use Prim.Native.Char.{Char, code}
use text.Mathlib.TextEquality.{eq_iff}
use text.Mathlib.TextLemmas.{nil-append, cons-append}
use cr3d_x.Base.{
  ℕ, zero, suc, String, ◌<>◌, str_eq, ◌≡◌, ◌≢◌, refl, both_true, same_number, true, false, ◌==◌,
  Option, none, some, arith, is_space, trim_start, trim_end, trim, is_hex, is_hex_run, is_hex_digit,
}
use cr3d_x.EnvFile.Text.{
  is_line_end, after_prefix, first_line, some_value, value_of, value_at, or_else, find_value,
  is_private_key,
}
use cr3d_x.EnvFile.Lines.{AllChars, IsPlain, plain_char}
use cr3d_x.EnvFile.Trims.{cons-not_empty}

-- A key of 64 hexadecimal digits has no white space.
hex_plain : (c : Char) → is_hex_digit c ≡ true → is_space c ≡ false
unfolding is_hex_digit is_space
hex_plain c hex = ground arith

is_hex_run-IsPlain : (n : ℕ) (text : String) → is_hex_run n text ≡ true → IsPlain text
unfolding is_hex_run
is_hex_run-IsPlain zero String.[] hex = tt
is_hex_run-IsPlain zero (String.◌∷◌ c text) hex = cc
is_hex_run-IsPlain (suc n) String.[] hex = cc
is_hex_run-IsPlain (suc n) (String.◌∷◌ c text) hex =
    let (digit, rest) = both_true _ _ hex in (hex_plain c digit, is_hex_run-IsPlain n text rest)

pub private_key-IsPlain : (key : String) → is_private_key key ≡ true → IsPlain key
unfolding is_private_key is_hex is_space
private_key-IsPlain String.[] e = cc
private_key-IsPlain (String.◌∷◌ z String.[]) e = cc
private_key-IsPlain (String.◌∷◌ z (String.◌∷◌ x text)) e =
    (ground (arith, e), (ground (arith, e), is_hex_run-IsPlain 64 text (ground (arith, e))))

pub private_key-not_empty : (key : String) → is_private_key key ≡ true → str_eq key "" ≡ false
unfolding is_private_key is_hex
private_key-not_empty String.[] e = cc
private_key-not_empty (String.◌∷◌ c text) e = cons-not_empty c text

pub private_key-ne-empty : (key : String) → is_private_key key ≡ true → key ≢ ""
private_key-ne-empty key e same = cc (private_key-not_empty key e, (eq_iff key "").1 same)

trim_end-plain : (text : String) → IsPlain text → trim_end text ≡ text
unfolding trim_end
trim_end-plain String.[] plain = refl
trim_end-plain (String.◌∷◌ c text) plain = rw (plain.0, trim_end-plain text plain.1) refl

pub trim-plain : (text : String) → IsPlain text → trim text ≡ text
unfolding trim trim_start
trim-plain String.[] plain = trim_end-plain "" tt
trim-plain (String.◌∷◌ c text) plain = rw plain.0 (trim_end-plain (String.◌∷◌ c text) plain)

line_of_plain : (text : String) → IsPlain text → AllChars (λ c. is_line_end c ≡ false) text
line_of_plain String.[] plain = tt
line_of_plain (String.◌∷◌ c text) plain = (plain_char c plain.0, line_of_plain text plain.1)

-- A line is not searched but at its start.
find_value-within :
    (prefix text : String)
    → AllChars (λ c. is_line_end c ≡ false) text
    → find_value prefix false text ≡ none
unfolding find_value
find_value-within prefix String.[] line = refl
find_value-within prefix (String.◌∷◌ c text) line = rw line.0 (find_value-within prefix text line.1)

after_prefix_self : (prefix text : String) → after_prefix prefix (prefix <> text) ≡ some text
unfolding after_prefix
after_prefix_self String.[] text = rw nil-append refl
after_prefix_self (String.◌∷◌ p prefix) text =
    rw cons-append (rw (same_number (code p)) (after_prefix_self prefix text))

first_line-plain : (text : String) → IsPlain text → first_line text ≡ text
unfolding first_line
first_line-plain String.[] plain = refl
first_line-plain (String.◌∷◌ c text) plain =
    rw (plain_char c plain.0, first_line-plain text plain.1) refl

-- What is found for a variable: nothing, or a value that stands for a key.
abbrev pub ReadsAs : Option String → Option String → Type 0
ReadsAs found none = found ≡ none
ReadsAs found (some key) = (value : String) × (found ≡ some value) × (trim value ≡ key)

abbrev pub Reads : String → String → Option String → Type 0
Reads prefix text = ReadsAs (find_value prefix true text)

-- The texts differ at once.
abbrev pub HeadsDiffer : String → String → Type 0
HeadsDiffer (String.◌∷◌ p prefix) (String.◌∷◌ q other) = (code p == code q) ≡ false
HeadsDiffer _ _ = ⊥

value_at-entry :
    (prefix key : String) → is_private_key key ≡ true → value_at prefix (prefix <> key) ≡ some key
unfolding value_at value_of some_value
value_at-entry prefix key e =
    rw
      (
        after_prefix_self prefix key,
        first_line-plain key (private_key-IsPlain key e),
        private_key-not_empty key e,
      )
      refl

-- An entry is read back.
pub find_value-entry :
    (prefix key : String)
    → prefix ≢ ""
    → is_private_key key ≡ true
    → find_value prefix true (prefix <> key) ≡ some key
unfolding find_value or_else
find_value-entry String.[] key some_prefix e = elim (some_prefix refl) [ ]
find_value-entry (String.◌∷◌ p prefix) key some_prefix e =
    let here = rw cons-append at (value_at-entry (String.◌∷◌ p prefix) key e) in
    rw cons-append (rw here refl)

append-AllChars :
    (P : Char → Type 0) (a b : String) → AllChars P a → AllChars P b → AllChars P (a <> b)
append-AllChars P String.[] b ha hb = rw nil-append hb
append-AllChars P (String.◌∷◌ c a) b ha hb = rw cons-append (ha.0, append-AllChars P a b ha.1 hb)

-- Nothing else is found in an entry.
pub find_value-other :
    (prefix other key : String)
    → HeadsDiffer prefix other
    → IsPlain other
    → is_private_key key ≡ true
    → find_value prefix true (other <> key) ≡ none
unfolding find_value or_else value_at after_prefix value_of
find_value-other (String.◌∷◌ p prefix) (String.◌∷◌ q other) key differ plain e =
    let line =
      append-AllChars (λ c. is_line_end c ≡ false) other key (line_of_plain other plain.1)
        (line_of_plain key (private_key-IsPlain key e)) in
    rw cons-append (
      rw (differ, plain_char q plain.0)
        (find_value-within (String.◌∷◌ p prefix) (other <> key) line))
find_value-other String.[] other key differ plain e = elim differ [ ]
find_value-other (String.◌∷◌ p prefix) String.[] key differ plain e = elim differ [ ]
