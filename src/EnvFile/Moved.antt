-- ===== src/EnvFile/Moved.antt =====
-- A file that is renamed over its target: the last step of every atomic write.
use cr3d_x.Base.{◌≡◌, refl, sym, ◌∙◌, subst, false, Option, none, some, All}
use cr3d_x.EnvFile.Machine.{
  FilePath, same_path, DiskNode, Disk, Machine, Host, put_node, rename_at, rename,
}
use cr3d_x.EnvFile.Triples.{Leaves, Triple, Triple-os}
use cr3d_x.EnvFile.Nodes.{put_node-elsewhere, put_node-at}
use cr3d_x.EnvFile.Temporary.{IsElsewhere}

-- The target has an entry with `H`, the temporary file is gone, and the rest is as it was.
pub record IsMoved (H : Option DiskNode → Type 0) (t temp : FilePath) (d0 d : Disk) : Type 0 where
  pub in_place : H (d t)
  pub gone : d temp ≡ none
  pub rest : (q : FilePath) → same_path q t ≡ false → same_path q temp ≡ false → d q ≡ d0 q

module _ (H : Option DiskNode → Type 0) (host : Host) (t temp : FilePath)
    (apart : same_path temp t ≡ false) (d0 : Disk) {I : Disk → Type 0}
    (keeps : (d : Disk) → IsElsewhere temp d0 d → I d) where
  rename_at-Leaves :
      (entry : Option DiskNode) (m : Machine)
      → m.disk temp ≡ entry
      → All I m.past
      → IsElsewhere temp d0 m.disk × H (m.disk temp)
      → Leaves I (λ _ d. IsMoved H t temp d0 d) (IsElsewhere temp d0) (rename_at temp t entry m)
  unfolding rename_at put_node IsElsewhere
  rename_at-Leaves none m there i (a, r) = (i, a)
  rename_at-Leaves (some entry) m there i (a, r) = (
    i,
    record {
      in_place =
          subst (λ n. H n) (there ∙ sym (put_node-at t (some entry) (put_node temp none m))) r;
      gone =
          put_node-elsewhere t temp (some entry) (put_node temp none m) apart
          ∙ put_node-at temp none m;
      rest = λ q other other'.
          put_node-elsewhere t q (some entry) (put_node temp none m) other
          ∙ put_node-elsewhere temp q none m other'
          ∙ a q other';
    },
  )

  pub rename-Triple :
      Triple I
        (λ d. IsElsewhere temp d0 d × H (d temp))
        (rename host temp t)
        (λ _ d. IsMoved H t temp d0 d)
        (IsElsewhere temp d0)
  unfolding rename
  rename-Triple =
      Triple-os host _ (λ d r. r.0) (λ d r. keeps d r.0)
        (record { at = λ m i r. rename_at-Leaves (m.disk temp) m refl i r })
