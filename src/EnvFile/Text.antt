-- ===== src/EnvFile/Text.antt =====
-- The text of an environment file: what `readKey` finds in it, and what `render` makes of it.
use Prim.Native.Char.{Char, code}
use cr3d_x.Base.{
  String, ◌<>◌, str_eq, Bool, true, false, ◌||◌, Option, none, some, List, ◌∷◌, ◌==◌, if◌then◌else◌,
  trim, trim_end, is_hex,
}
use cr3d_x.Types.Port.{Result, ok, threw}

-- The line terminators of a regular expression with the flag `m`.
unfoldable pub is_line_end : Char → Bool
is_line_end c = (code c == 10) || (code c == 13) || (code c == 8232) || (code c == 8233)

-- The text behind a prefix, where it has it.
unfoldable pub after_prefix : String → String → Option String
after_prefix String.[] text = some text
after_prefix (String.◌∷◌ p prefix) String.[] = none
after_prefix (String.◌∷◌ p prefix) (String.◌∷◌ c text) =
    let rest = after_prefix prefix text in if code p == code c then rest else none

-- The longest match of /.*/
unfoldable pub first_line : String → String
first_line String.[] = String.[]
first_line (String.◌∷◌ c text) =
    let rest = String.◌∷◌ c (first_line text) in if is_line_end c then String.[] else rest

unfoldable pub some_value : String → Option String
some_value value = if str_eq value "" then none else some value

-- The capture of /(.+)$/ behind the prefix, where that stands.
unfoldable pub value_of : Option String → Option String
value_of none = none
value_of (some rest) = some_value (first_line rest)

-- The capture of /PREFIX(.+)$/ at the start of the text.
unfoldable pub value_at : String → String → Option String
value_at prefix text = value_of (after_prefix prefix text)

unfoldable pub or_else : Option String → Option String → Option String
or_else none later = later
or_else (some value) later = some value

-- text.match(/^PREFIX(.+)$/m), from the start of a line or from within one
unfoldable pub find_value : String → Bool → String → Option String
find_value prefix at_start String.[] = none
find_value prefix true (String.◌∷◌ c text) =
    or_else (value_at prefix (String.◌∷◌ c text)) (find_value prefix (is_line_end c) text)
find_value prefix false (String.◌∷◌ c text) = find_value prefix (is_line_end c) text

-- PRIVATE_KEY
unfoldable pub is_private_key : String → Bool
is_private_key key = is_hex 64 key

unfoldable pub checked_key : String → Option String → Result (Option String)
checked_key variable none = ok none
checked_key variable (some value) =
    if is_private_key (trim value)
    then ok (some (trim value))
    else threw (variable <> " exists in .env but is invalid. It was not printed or overwritten.")

unfoldable pub read_key : String → String → Result (Option String)
read_key text variable = checked_key variable (find_value (variable <> "=") true text)

-- One round of the loop of render.
unfoldable pub append_entry : String → String → String → String
append_entry next variable key =
    (if str_eq next "" then "" else next <> "\n") <> ((variable <> "=") <> key)

unfoldable pub render_missing : String → List String → List (Option String) → List String → String
render_missing next (variable ∷ variables) (none ∷ existing) (key ∷ keys) =
    render_missing (append_entry next variable key) variables existing keys
render_missing next (variable ∷ variables) (some old ∷ existing) (key ∷ keys) =
    render_missing next variables existing keys
render_missing next _ _ _ = next

unfoldable pub render : String → List String → List (Option String) → List String → String
render original variables existing keys =
    render_missing (trim_end original) variables existing keys <> "\n"
