-- ===== src/EnvFile/Atomic.antt =====
-- scripts/lib/env-persistence.ts `atomicReplace`, whatever calls fail.
use cr3d_x.Base.{String, ◌≡◌, refl, sym, ◌⊎◌, inl, subst, true, false, [], All}
use cr3d_x.EnvFile.Machine.{
  FilePath, same_path, Disk, Machine, Host, ◌>>=◌, ◌>>◌, create, rename, sibling, unique_sibling,
}
use cr3d_x.EnvFile.Replace.{
  PreparedTarget, or_clean_up, fill_temporary, put_in_place, atomic_replace,
}
use cr3d_x.EnvFile.Triples.{Leaves, Triple, Triple-bind}
use cr3d_x.EnvFile.Nodes.{sibling-IsApart, sibling-IsApart'}
use cr3d_x.EnvFile.Temporary.{
  IsElsewhere, IsPrivateFile, IsFilled, IsReady, create-Triple, fill_temporary-Triple,
  or_clean_up-Triple,
}
use cr3d_x.EnvFile.Moved.{IsMoved, rename-Triple}
use cr3d_x.EnvFile.Ready.{private_mode-Triple}
use cr3d_x.EnvFile.Looks.{assert_target_unchanged-Looks}

-- The target is a private file with the contents, the temporary file is gone, and the rest is as it was.
abbrev pub IsReplaced : FilePath → FilePath → String → Disk → Disk → Type 0
IsReplaced t temp contents d0 d = IsMoved (IsPrivateFile contents) t temp d0 d

-- The target is the old node or the new file.
abbrev pub IsOldOrNew : FilePath → String → Disk → Disk → Type 0
IsOldOrNew t contents d0 d = (d t ≡ d0 t) ⊎ IsPrivateFile contents (d t)

module _ (host : Host) (t temp : FilePath) (apart : same_path t temp ≡ false)
    (apart' : same_path temp t ≡ false) (contents : String) (d0 : Disk) {I : Disk → Type 0}
    (keeps : (d : Disk) → IsElsewhere temp d0 d → I d) where
  ready : (d : Disk) → IsReady temp contents d0 d → IsElsewhere temp d0 d
  unfolding IsReady
  ready d r = r.0

  replaced :
      Triple I
        (IsReady temp contents d0)
        (rename host temp t)
        (λ _ d. IsReplaced t temp contents d0 d)
        (IsElsewhere temp d0)
  unfolding IsReady
  replaced = rename-Triple (IsPrivateFile contents) host t temp apart' d0 keeps

  put_in_place-Triple :
      (target : PreparedTarget)
      → target.target_path ≡ t
      → Triple I
          (IsFilled temp contents d0)
          (put_in_place host target temp)
          (λ _ d. IsReplaced t temp contents d0 d)
          (IsElsewhere temp d0)
  unfolding put_in_place
  put_in_place-Triple target same =
      Triple-bind _ _ (private_mode-Triple host temp contents d0 keeps) (λ _.
        Triple-bind _ _
          (assert_target_unchanged-Looks host ready (λ d r. keeps d (ready d r)) target)
          (λ _. rw same replaced))

  pub steps-Triple :
      (target : PreparedTarget)
      → target.target_path ≡ t
      → Triple I
          (IsElsewhere temp d0)
          (do
            or_clean_up host false temp (create host temp)
            or_clean_up host true temp (fill_temporary host temp contents)
            or_clean_up host false temp (put_in_place host target temp))
          (λ _ d. IsReplaced t temp contents d0 d)
          (IsElsewhere temp d0)
  steps-Triple target same =
      Triple-bind _ _
        (or_clean_up-Triple host temp contents d0 keeps false _
          (create-Triple host temp contents d0 keeps))
        (λ _.
          Triple-bind _ _
            (or_clean_up-Triple host temp contents d0 keeps true _
              (fill_temporary-Triple host temp contents d0 keeps))
            (λ _.
              or_clean_up-Triple host temp contents d0 keeps false _
                (put_in_place-Triple target same)))

-- Its name stands beside the target.
abbrev pub temporary_of : Host → PreparedTarget → Machine → FilePath
temporary_of host target m = sibling host target.target_path "write" m.calls

pub atomic_replace-Leaves :
    {I : Disk → Type 0} (host : Host) (target : PreparedTarget) (contents : String) (m : Machine)
    → ((d : Disk) → IsElsewhere (temporary_of host target m) m.disk d → I d)
    → All I m.past
    → Leaves I
        (λ _ d. IsReplaced target.target_path (temporary_of host target m) contents m.disk d)
        (IsElsewhere (temporary_of host target m) m.disk)
        (atomic_replace host target contents m)
unfolding atomic_replace unique_sibling IsElsewhere ◌>>=◌
atomic_replace-Leaves host target contents m keeps past =
    let t = target.target_path in
    (steps-Triple host t (temporary_of host target m) (sibling-IsApart host t "write" m.calls)
        (sibling-IsApart' host t "write" m.calls) contents m.disk keeps target refl).at
      m past (λ q apart. refl)

-- Whatever calls fail, and whatever a failing write leaves: where `atomicReplace` returns, the target is a
-- file with the whole contents and mode 600, the temporary file is gone, and the rest is as it was; where
-- it throws, every path but the temporary one has what it had; and at every call in between, where the
-- process may die, the target has what it had or is the whole new file. It is called where no call was
-- recorded before.
pub atomic_replace-IsAtomic :
    (host : Host) (target : PreparedTarget) (contents : String) (m : Machine)
    → m.past ≡ []
    → Leaves
        (IsOldOrNew target.target_path contents m.disk)
        (λ _ d. IsReplaced target.target_path (temporary_of host target m) contents m.disk d)
        (IsElsewhere (temporary_of host target m) m.disk)
        (atomic_replace host target contents m)
unfolding IsElsewhere
atomic_replace-IsAtomic host target contents m fresh =
    atomic_replace-Leaves host target contents m
      (λ d same.
        inl (same target.target_path (sibling-IsApart host target.target_path "write" m.calls)))
      (subst (λ p. All (IsOldOrNew target.target_path contents m.disk) p) (sym fresh) tt)
