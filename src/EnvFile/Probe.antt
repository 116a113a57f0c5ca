-- ===== src/EnvFile/Probe.antt =====
-- scripts/lib/env-persistence.ts `assertPrivateAtomicFilesystem` and `assertPrivateParent` keep what is
-- on the disk.
use cr3d_x.Base.{Bool, true, false, Option, none, some, All}
use cr3d_x.EnvFile.Machine.{
  FilePath, DiskNode, Disk, Machine, Host, Io, ◌>>=◌, ◌>>◌, put_node, rename_at, create, lstat,
  stat_parent, rename, sibling, unique_sibling,
}
use cr3d_x.EnvFile.Replace.{fill_temporary}
use cr3d_x.EnvFile.Prepare.{
  assert_private_parent, tidy, or_tidy, probe_failed, probe_rename,
  assert_private_atomic_filesystem,
}
use cr3d_x.EnvFile.Triples.{Leaves, Triple, Triple-bind, Triple-throw, Triple-try_catch}
use cr3d_x.EnvFile.Kept.{
  IsKept, Always, Keeps, call-Keeps, look-Keeps, bind-Keeps, require-Keeps, when-Keeps, sync-Keeps,
}
use cr3d_x.EnvFile.Own.{
  IsOwn, sibling-IsOwn, changes, HasFile, create-Triple, fill_temporary-Triple, private_mode-Triple,
  remove_if_present-Keeps,
}

module _ (host : Host) (target : FilePath) (P : Option DiskNode → Type 0) (d0 : Disk) where
  abbrev K : Disk → Type 0
  K = IsKept host target P d0

  abbrev KeepsIt : {A : Type 0} → Io A → Type 0
  KeepsIt io = Keeps host target P d0 io

  module _ (p q : FilePath) (own : IsOwn host target P d0 p) (own' : IsOwn host target P d0 q) where
    rename_at-Leaves :
        (entry : Option DiskNode) (m : Machine)
        → All Always m.past
        → K m.disk
        → Leaves Always (λ _ d. K d) K (rename_at p q entry m)
    unfolding rename_at put_node
    rename_at-Leaves none m i k = (i, k)
    rename_at-Leaves (some entry) m i k = (
      i,
      changes host target P d0 q own' _ (put_node p none m)
          (changes host target P d0 p own none m k),
    )

    probe_rename-Triple :
        Triple Always (HasFile host target P d0 p own) (probe_rename host p q) (λ _ d. K d) K
    unfolding probe_rename rename lstat Keeps
    probe_rename-Triple = Triple-bind _ _ (private_mode-Triple host target P d0 p own) (λ _.
        bind-Keeps host target P d0 _ _
          (call-Keeps host target P d0 _
            (record { at = λ m i k. rename_at-Leaves (m.disk p) m i k }))
          (λ _.
            bind-Keeps host target P d0 _ _ (look-Keeps host target P d0 _)
              (λ renamed. require-Keeps host target P d0 _ _)))

    tidy-Keeps : (fd_open : Bool) → KeepsIt (tidy host fd_open p q)
    unfolding tidy
    tidy-Keeps fd_open =
        bind-Keeps host target P d0 _ _
          (when-Keeps host target P d0 fd_open _ (sync-Keeps host target P d0))
          (λ _.
            bind-Keeps host target P d0 _ _ (remove_if_present-Keeps host target P d0 p own)
              (λ _. remove_if_present-Keeps host target P d0 q own'))

    or_tidy-Triple :
        {Pre : Disk → Type 0} {Q : Unit → Disk → Type 0} (fd_open : Bool) (io : Io Unit)
        → Triple Always Pre io Q K
        → Triple Always Pre (or_tidy host fd_open p q io) Q K
    unfolding or_tidy Keeps
    or_tidy-Triple fd_open io t = Triple-try_catch io _ t (λ message.
        Triple-bind _ _ (tidy-Keeps fd_open) (λ _. Triple-throw probe_failed (λ d k. k)))

    probe-Keeps : KeepsIt (do
      or_tidy host false p q (create host p)
      or_tidy host true p q (fill_temporary host p "")
      or_tidy host false p q (probe_rename host p q)
      tidy host false p q)
    unfolding Keeps
    probe-Keeps =
        Triple-bind _ _ (or_tidy-Triple false _ (create-Triple host target P d0 p own)) (λ _.
          Triple-bind _ _ (or_tidy-Triple true _ (fill_temporary-Triple host target P d0 p own ""))
            (λ _.
              Triple-bind _ _ (or_tidy-Triple false _ probe_rename-Triple) (λ _. tidy-Keeps false)))

  pub assert_private_atomic_filesystem-Keeps :
      KeepsIt (assert_private_atomic_filesystem host target)
  unfolding assert_private_atomic_filesystem unique_sibling ◌>>=◌ Keeps
  assert_private_atomic_filesystem-Keeps = record {
    at = λ m i k.
        (probe-Keeps (sibling host target "probe" m.calls)
            (sibling host target "probe-renamed" m.calls)
            (sibling-IsOwn host target P d0 "probe" m.calls)
            (sibling-IsOwn host target P d0 "probe-renamed" m.calls)).at
          m i k;
  }

  pub assert_private_parent-Keeps : (p : FilePath) → KeepsIt (assert_private_parent host p)
  unfolding assert_private_parent stat_parent
  assert_private_parent-Keeps p =
      bind-Keeps host target P d0 _ _ (look-Keeps host target P d0 _) (λ parent.
        bind-Keeps host target P d0 _ _ (require-Keeps host target P d0 _ _) (λ _.
          bind-Keeps host target P d0 _ _ (require-Keeps host target P d0 _ _)
            (λ _. require-Keeps host target P d0 _ _)))
