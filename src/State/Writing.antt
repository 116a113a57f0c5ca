-- ===== src/State/Writing.antt =====
-- worker/state.ts `atomicWriteJson`, by which every file of the worker is written, on the disk of
-- EnvFile/Machine: any call may fail, and a failing write may leave a part of the text.
use cr3d_x.Base.{
  ℕ, String, ◌<>◌, decimal, ◌≡◌, refl, sym, subst, ◌⊎◌, inl, inr, false, Option, some, [], All,
}
use cr3d_x.EnvFile.Machine.{
  FilePath, same_path, FileStat, DiskNode, file, Disk, Machine, Host, Io, throw, try_catch, ◌>>◌,
  create, write, sync, rename,
}
use cr3d_x.EnvFile.Triples.{
  Leaves, Triple, Triple-throw, Triple-os, Triple-bind, Triple-try_catch, Triple-weaken_throw,
}
use cr3d_x.EnvFile.Temporary.{
  IsElsewhere, IsCreated, IsFilled, filled, create-Triple, write-Triple, sync-Triple,
}
use cr3d_x.EnvFile.Moved.{IsMoved, rename-Triple}

-- try { io } finally { last }: an error of `last` takes the place of one of `io`.
unfoldable pub finally : Io Unit → Io Unit → Io Unit
finally io last = do try_catch io (λ message. do last; throw message); last

-- join(directory, `.tmp-${process.pid}-${Date.now()}-${…}`), with eight digits of the hash of the path
unfoldable pub temporary_path : (FilePath → String) → ℕ → ℕ → FilePath → FilePath
temporary_path hash_prefix pid at path = record {
  directory = path.directory;
  name = ".tmp-" <> (decimal pid <> ("-" <> (decimal at <> ("-" <> hash_prefix path))));
}

module _ (host : Host) where
  -- fsyncDirectory: it is opened, synchronized and closed.
  unfoldable pub fsync_directory : Io Unit
  fsync_directory = do sync host; finally (sync host) (sync host)

  -- The text is JSON.stringify(value, null, 2) with a newline.
  unfoldable pub write_through : FilePath → FilePath → String → Io Unit
  write_through temporary path json = do
    create host temporary
    finally (do write host temporary (json <> "\n"); sync host) (sync host)
    rename host temporary path
    fsync_directory

  -- atomicWriteJson in the process `pid`, when `Date.now()` answers `at`
  unfoldable pub atomic_write_json : (FilePath → String) → ℕ → ℕ → FilePath → String → Io Unit
  atomic_write_json hash_prefix pid at path json =
      write_through (temporary_path hash_prefix pid at path) path json

-- A file with the whole text.
abbrev HoldsText : String → Option DiskNode → Type 0
HoldsText text entry = (stat : FileStat) × (entry ≡ some (file stat text))

-- The path has what it had, or the whole new text, and no other path but the temporary one is touched.
pub record IsOldOrWhole (t temp : FilePath) (text : String) (d0 d : Disk) : Type 0 where
  pub target : (d t ≡ d0 t) ⊎ HoldsText text (d t)
  pub rest : (q : FilePath) → same_path q t ≡ false → same_path q temp ≡ false → d q ≡ d0 q

-- The path has the whole new text, and the temporary file is gone.
abbrev pub IsWritten : FilePath → FilePath → String → Disk → Disk → Type 0
IsWritten t temp text d0 d = IsMoved (HoldsText text) t temp d0 d

module _ (host : Host) (t temp : FilePath) (apart : same_path t temp ≡ false)
    (apart' : same_path temp t ≡ false) (text : String) (d0 : Disk) where
  abbrev W : Disk → Type 0
  W d = IsOldOrWhole t temp text d0 d

  before : (d : Disk) → IsElsewhere temp d0 d → W d
  unfolding IsElsewhere
  before d e = record { target = inl (e t apart); rest = λ q _ other. e q other }

  after : (d : Disk) → IsWritten t temp text d0 d → W d
  after d m = record { target = inr m.in_place; rest = m.rest }

  -- Where the end keeps what holds, so does the whole.
  finally-Triple :
      {I P Q E : Disk → Type 0} (io last : Io Unit)
      → Triple I P io (λ _ d. Q d) E
      → Triple I Q last (λ _ d. Q d) E
      → Triple I E last (λ _ d. E d) E
      → Triple I P (finally io last) (λ _ d. Q d) E
  unfolding finally
  finally-Triple io last t ends ends_badly =
      Triple-bind _ _
        (Triple-try_catch io _ t
          (λ message. Triple-bind _ _ ends_badly (λ _. Triple-throw message (λ d e. e))))
        (λ _. ends)

  syncs :
      {P E : Disk → Type 0}
      → ((d : Disk) → P d → E d)
      → ((d : Disk) → P d → W d)
      → Triple W P (sync host) (λ _ d. P d) E
  unfolding sync
  syncs weaker keeps = Triple-os host _ weaker keeps (record { at = λ m i p. (i, p) })

  fsync_directory-Triple :
      Triple W
        (IsWritten t temp text d0)
        (fsync_directory host)
        (λ _ d. IsWritten t temp text d0 d)
        W
  unfolding fsync_directory
  fsync_directory-Triple =
      Triple-bind _ _ (syncs after after) λ _.
        finally-Triple _ _ (syncs after after) (syncs after after) (syncs (λ d w. w) (λ d w. w))

  rename-IsWritten :
      Triple W
        (IsFilled temp text d0)
        (rename host temp t)
        (λ _ d. IsWritten t temp text d0 d)
        (IsElsewhere temp d0)
  unfolding IsFilled
  rename-IsWritten = rename-Triple (HoldsText text) host t temp apart' d0 before

  fill-Triple :
      Triple W
        (IsCreated temp d0)
        (finally (do write host temp text; sync host) (sync host))
        (λ _ d. IsFilled temp text d0 d)
        (IsElsewhere temp d0)
  fill-Triple =
      let keeps = filled host temp text d0 before in
      finally-Triple _ _
        (Triple-bind _ _ (write-Triple host temp text d0 before)
          (λ _. sync-Triple host temp text d0 before keeps))
        (sync-Triple host temp text d0 before keeps)
        (sync-Triple host temp text d0 before (λ d a. a))

  write_through-Triple :
      Triple W
        (IsElsewhere temp d0)
        (do
          create host temp
          finally (do write host temp text; sync host) (sync host)
          rename host temp t
          fsync_directory host)
        (λ _ d. IsWritten t temp text d0 d)
        W
  write_through-Triple =
      Triple-bind _ _ (Triple-weaken_throw _ before (create-Triple host temp text d0 before)) λ _.
        Triple-bind _ _ (Triple-weaken_throw _ before fill-Triple) λ _.
          Triple-bind _ _ (Triple-weaken_throw _ before rename-IsWritten)
            λ _. fsync_directory-Triple

-- Whatever calls fail, and whatever a failing write leaves: where `atomicWriteJson` returns, the path has
-- the whole new text, and the temporary file is gone; where it throws, and at every call in between, where
-- the process may die, the path has what it had or the whole new text, and no other path but the temporary
-- one is touched. It is called where no call was recorded before, and the temporary path is another one.
pub atomic_write_json-IsAtomic :
    (host : Host) (hash_prefix : FilePath → String) (pid at : ℕ) (path : FilePath) (json : String)
    (m : Machine)
    → let temporary = temporary_path hash_prefix pid at path in
      same_path path temporary ≡ false
      → same_path temporary path ≡ false
      → m.past ≡ []
      → Leaves
          (IsOldOrWhole path temporary (json <> "\n") m.disk)
          (λ _ d. IsWritten path temporary (json <> "\n") m.disk d)
          (IsOldOrWhole path temporary (json <> "\n") m.disk)
          (atomic_write_json host hash_prefix pid at path json m)
unfolding atomic_write_json write_through IsElsewhere
atomic_write_json-IsAtomic host hash_prefix pid at path json m apart apart' fresh =
    let temporary = temporary_path hash_prefix pid at path in
    (write_through-Triple host path temporary apart apart' (json <> "\n") m.disk).at m
      (subst (λ p. All (IsOldOrWhole path temporary (json <> "\n") m.disk) p) (sym fresh) tt)
      (λ q other. refl)
