-- ===== src/Base/Space.antt =====
-- White space as JavaScript reads it: `trim` and `trimEnd`.
use Prim.Native.Char.{Char, code}
use Prim.Native.String.{String}
use mathlib.Core.Bool.{Bool, ◌&&◌, ◌||◌}
use text.Mathlib.Text.{◌==◌ as str_eq}
use cr3d_x.Base.Tests.{leb, ◌==◌, if◌then◌else◌}

-- The white space that `trim` takes off.
unfoldable pub is_space : Char → Bool
is_space c =
    (leb 9 (code c) && leb (code c) 13)
    || (code c == 32)
    || (code c == 160)
    || (code c == 5760)
    || (leb 8192 (code c) && leb (code c) 8202)
    || (code c == 8232)
    || (code c == 8233)
    || (code c == 8239)
    || (code c == 8287)
    || (code c == 12288)
    || (code c == 65279)

-- s.trimStart()
unfoldable pub trim_start : String → String
trim_start String.[] = String.[]
trim_start (String.◌∷◌ c s) = let rest = trim_start s in if is_space c then rest else String.◌∷◌ c s

-- s.trimEnd()
unfoldable pub trim_end : String → String
trim_end String.[] = String.[]
trim_end (String.◌∷◌ c s) =
    let rest = trim_end s in if is_space c && str_eq rest "" then String.[] else String.◌∷◌ c rest

-- s.trim()
unfoldable pub trim : String → String
unfolding trim_start trim_end
trim s = trim_end (trim_start s)
