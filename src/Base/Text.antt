-- ===== src/Base/Text.antt =====
-- What the source does to strings: `toLowerCase`, hexadecimal tests, decimal numerals, and the
-- redaction of long hexadecimal runs (worker/engine.ts `safeError`).
use Prim.Native.Nat.{ℕ, zero, suc, ◌-◌, ◌/◌, ◌%◌}
use Prim.Native.Char.{Char, code}
use Prim.Native.String.{String, char_at, ◌++◌ as ◌<>◌}
use mathlib.Core.Path.{◌≡◌, refl}
use mathlib.Core.Logic.{◌≢◌, inl, inr}
use text.Mathlib.TextEquality.{eq_iff}
use mathlib.Core.Bool.{Bool, true, false, ◌&&◌, ◌||◌}
use text.Mathlib.Text.{◌==◌ as str_eq}
use cr3d_x.Base.Tests.{Bool-cases, leb, ltb, ◌==◌, if◌then◌else◌}

lower_char : Char → Char
lower_char c =
    if leb b'A' (code c) && leb (code c) b'Z'
    then char_at "abcdefghijklmnopqrstuvwxyz" (code c - b'A')
    else c

-- s.toLowerCase() on ASCII text, which the hashes and addresses are
unfoldable pub lower : String → String
unfolding lower_char
lower String.[] = String.[]
lower (String.◌∷◌ c s) = String.◌∷◌ (lower_char c) (lower s)

pub str_eq-false : (a b : String) → a ≢ b → str_eq a b ≡ false
str_eq-false a b n = elim (Bool-cases (str_eq a b)) [
  | inl same ↦ absurd (n ((eq_iff a b).0 same))
  | inr other ↦ other
]

-- a.toLowerCase() === b.toLowerCase()
unfoldable pub same_hex : String → String → Bool
unfolding lower
same_hex a b = str_eq (lower a) (lower b)

unfoldable pub is_hex_digit : Char → Bool
is_hex_digit c =
    (leb b'0' (code c) && leb (code c) b'9')
    || (leb b'a' (code c) && leb (code c) b'f')
    || (leb b'A' (code c) && leb (code c) b'F')

-- /[0-9a-fA-F]{n}$/, read from the start of the rest
unfoldable pub is_hex_run : ℕ → String → Bool
unfolding is_hex_digit
is_hex_run zero String.[] = true
is_hex_run zero (String.◌∷◌ c s) = false
is_hex_run (suc n) String.[] = false
is_hex_run (suc n) (String.◌∷◌ c s) = is_hex_digit c && is_hex_run n s

-- /^0x[0-9a-fA-F]{n}$/
unfoldable pub is_hex : ℕ → String → Bool
unfolding is_hex_run
is_hex n (String.◌∷◌ z (String.◌∷◌ x s)) = code z == b'0' && code x == b'x' && is_hex_run n s
is_hex n _ = false

-- Lower-case hexadecimal digits only: /^[0-9a-f]{n}$/
unfoldable pub is_lower_hex_run : ℕ → String → Bool
is_lower_hex_run zero String.[] = true
is_lower_hex_run zero (String.◌∷◌ c s) = false
is_lower_hex_run (suc n) String.[] = false
is_lower_hex_run (suc n) (String.◌∷◌ c s) =
    ((leb b'0' (code c) && leb (code c) b'9') || (leb b'a' (code c) && leb (code c) b'f'))
    && is_lower_hex_run n s

digit : ℕ → String
digit d = String.◌∷◌ (char_at "0123456789" d) String.[]

decimal_loop : ℕ → ℕ → String → String
unfolding digit
decimal_loop zero n rest = rest
decimal_loop (suc fuel) n rest =
    let more = decimal_loop fuel (n / 10) (digit (n % 10) <> rest) in
    if ltb n 10 then digit n <> rest else more

-- `${n}`; a numeral has at most n + 1 digits
unfoldable pub decimal : ℕ → String
unfolding decimal_loop
decimal n = decimal_loop (suc n) n ""

-- How many hexadecimal digits a text begins with.
hex_prefix : String → ℕ
unfolding is_hex_digit
hex_prefix String.[] = 0
hex_prefix (String.◌∷◌ c s) = if is_hex_digit c then suc (hex_prefix s) else 0

-- The hexadecimal digits that stand behind an `x` in front of the text.
hex_after_x : String → ℕ
unfolding hex_prefix
hex_after_x String.[] = 0
hex_after_x (String.◌∷◌ c s) = if code c == b'x' then hex_prefix s else 0

-- The text with `skip` characters of a match still to be dropped.
redact_from : ℕ → String → String
unfolding hex_after_x
redact_from skip String.[] = String.[]
redact_from (suc skip) (String.◌∷◌ c s) = redact_from skip s
redact_from zero (String.◌∷◌ c s) =
    let matched = code c == b'0' && leb 128 (hex_after_x s) in
    let rest = redact_from (if matched then suc (hex_after_x s) else 0) s in
    if matched then "<redacted-hex>" <> rest else String.◌∷◌ c rest

-- message.replace(/0x[0-9a-fA-F]{128,}/g, '<redacted-hex>')
unfoldable pub redact : String → String
unfolding redact_from
redact = redact_from 0

lower_test : lower "0xAbF9" ≡ "0xabf9"
unfolding lower
lower_test = refl

decimal_test : decimal 10450 ≡ "10450"
unfolding decimal
decimal_test = refl

redact_test : redact "call 0x12 failed" ≡ "call 0x12 failed"
unfolding redact
redact_test = refl

is_hex_test : is_hex 4 "0x12aF" ≡ true
unfolding is_hex
is_hex_test = refl
