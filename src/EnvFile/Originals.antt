-- ===== src/EnvFile/Originals.antt =====
-- The text of a target of scripts/lib/env-persistence.ts, read through its links.
use cr3d_x.Base.{
  ℕ, zero, suc, String, ◌≡◌, refl, sym, ap, ◌∙◌, Bool, true, false, Option, none, some, subst,
}
use cr3d_x.Types.Fallible.{ok-eq}
use cr3d_x.Types.Port.{ok, threw}
use cr3d_x.EnvFile.Machine.{
  FilePath, FileStat, DiskNode, file, link, special, Disk, required, with_mode, resolve_from,
  node_at, file_text,
}

-- The text of a target that may be missing, and whether it exists.
unfoldable pub original_of : Option DiskNode → Option (String × Bool)
original_of none = some ("", false)
original_of (some (file stat text)) = some (text, true)
original_of (some (link next)) = none
original_of (some (special stat)) = none

unfoldable pub is_followed : Option DiskNode → Bool
is_followed (some (link next)) = true
is_followed (some (file stat text)) = false
is_followed (some (special stat)) = false
is_followed none = false

pub original_of-with_mode :
    (mode : ℕ) (entry : DiskNode)
    → original_of (some (with_mode mode entry)) ≡ original_of (some entry)
unfolding original_of with_mode
original_of-with_mode mode (file stat text) = refl
original_of-with_mode mode (link next) = refl
original_of-with_mode mode (special stat) = refl

pub is_followed-with_mode :
    (mode : ℕ) (entry : DiskNode)
    → is_followed (some (with_mode mode entry)) ≡ is_followed (some entry)
unfolding is_followed with_mode
is_followed-with_mode mode (file stat text) = refl
is_followed-with_mode mode (link next) = refl
is_followed-with_mode mode (special stat) = refl

-- What is read as a text, and exists, is a file.
pub original_of-file :
    (o : Option DiskNode) (text : String)
    → original_of o ≡ some (text, true)
    → (stat : FileStat) × (o ≡ some (file stat text))
unfolding original_of
original_of-file none text e = cc
original_of-file (some (file stat old)) text e = (stat, cc e)
original_of-file (some (link next)) text e = cc
original_of-file (some (special stat)) text e = cc

ok-not_threw : {A : Type 0} {a : A} {message : String} → ok a ≡ threw message → ⊥
ok-not_threw e = cc

-- What links lead to is no link.
pub resolve_from-ends :
    (fuel : ℕ) (disk : Disk) (p : FilePath) (o : Option DiskNode) (t : FilePath)
    → disk p ≡ o
    → resolve_from fuel disk p o ≡ ok t
    → is_followed (disk t) ≡ false
unfolding resolve_from is_followed
resolve_from-ends fuel disk p none t there e = cc
resolve_from-ends fuel disk p (some (file stat text)) t there e =
    subst (λ q. is_followed (disk q) ≡ false) (ok-eq e) (ap is_followed there)
resolve_from-ends fuel disk p (some (special stat)) t there e =
    subst (λ q. is_followed (disk q) ≡ false) (ok-eq e) (ap is_followed there)
resolve_from-ends zero disk p (some (link next)) t there e = cc
resolve_from-ends (suc fuel) disk p (some (link next)) t there e =
    resolve_from-ends fuel disk next (disk next) t refl e

pub read-original_of :
    (d : Disk) (t : FilePath) (o : Option DiskNode) (text : String)
    → d t ≡ o
    → is_followed o ≡ false
    → file_text (node_at d (resolve_from 40 d t o)) ≡ ok text
    → original_of o ≡ some (text, true)
unfolding original_of is_followed resolve_from node_at file_text required
read-original_of d t none text there plain look = cc
read-original_of d t (some (file stat old)) text there plain look =
    ap (λ x. some (x, true)) (ok-eq (sym (ap (λ o. file_text (required o)) there) ∙ look))
read-original_of d t (some (link next)) text there plain look = cc
read-original_of d t (some (special stat)) text there plain look =
    elim (ok-not_threw (sym look ∙ ap (λ o. file_text (required o)) there)) [ ]
