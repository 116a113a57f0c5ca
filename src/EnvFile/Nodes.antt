-- ===== src/EnvFile/Nodes.antt =====
-- The calls of EnvFile/Machine.antt seen from one path: what a change leaves elsewhere, and what it puts
-- there. They serve `atomicReplace` of scripts/lib/env-persistence.ts.
use text.Mathlib.TextEquality.{eq_iff}
use Prim.Native.String.{count}
use text.Mathlib.TextLemmas.{length-append}
use cr3d_x.Base.{
  ℕ, ◌+◌, String, ◌<>◌, str_eq, str_eq-false, ◌≡◌, refl, sym, ap, ◌∙◌, Bool, true, false, ◌&&◌,
  Option, some, arith,
}
use cr3d_x.Types.Port.{ok}
use cr3d_x.EnvFile.Machine.{
  FilePath, same_path, FileStat, DiskNode, file, Disk, Machine, Host, put_node, resolve_links,
  resolve_from, node_at, node_info, required, sibling,
}

pub same_path_self : (p : FilePath) → same_path p p ≡ true
unfolding same_path
same_path_self p = rw ((eq_iff p.directory p.directory).1 refl, (eq_iff p.name p.name).1 refl) refl

grows : (m n : ℕ) → m ≡ (1 + m) + n → ⊥
grows m n e = omega arith

never : (b : Bool) → (b && false) ≡ false
never true = refl
never false = refl

longer : (name rest : String) → name ≡ ("." <> name) <> rest → ⊥
longer name rest same = grows (count name) (count rest) (
    ap count same
    ∙ length-append ("." <> name) rest
    ∙ ap (λ n. n + count rest) (length-append "." name))

module _ (host : Host) (target : FilePath) (purpose : String) (n : ℕ) where
  pub sibling-IsApart : same_path target (sibling host target purpose n) ≡ false
  unfolding same_path sibling
  sibling-IsApart =
      ap (λ b. str_eq target.directory target.directory && b)
        (str_eq-false target.name _ (longer target.name _))
      ∙ never _

  pub sibling-IsApart' : same_path (sibling host target purpose n) target ≡ false
  unfolding same_path sibling
  sibling-IsApart' =
      ap (λ b. str_eq target.directory target.directory && b)
        (str_eq-false _ target.name (λ same. longer target.name _ (sym same)))
      ∙ never _

-- A path that a change is not about keeps its entry.
pub put_node-elsewhere :
    (p q : FilePath) (entry : Option DiskNode) (m : Machine)
    → same_path q p ≡ false
    → (put_node p entry m).disk q ≡ m.disk q
unfolding put_node
put_node-elsewhere p q entry m apart = rw apart refl

pub put_node-at :
    (p : FilePath) (entry : Option DiskNode) (m : Machine) → (put_node p entry m).disk p ≡ entry
unfolding put_node
put_node-at p entry m = rw (same_path_self p) refl

pub put_node-past :
    (p : FilePath) (entry : Option DiskNode) (m : Machine) → (put_node p entry m).past ≡ m.past
unfolding put_node
put_node-past p entry m = refl

pub resolve_links-file :
    (disk : Disk) (p : FilePath) (stat : FileStat) (text : String)
    → disk p ≡ some (file stat text)
    → resolve_links disk p ≡ ok p
unfolding resolve_links resolve_from
resolve_links-file disk p stat text there = rw there refl

-- What `statSync` tells of a file.
pub node_info-file :
    (disk : Disk) (p : FilePath) (stat : FileStat) (text : String)
    → disk p ≡ some (file stat text)
    → node_info (node_at disk (resolve_links disk p)) ≡ ok (record { is_file = true; stat = stat })
unfolding node_info node_at required
node_info-file disk p stat text there = rw (resolve_links-file disk p stat text there, there) refl
