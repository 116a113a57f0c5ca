-- ===== src/EnvFile/Machine.antt =====
-- Each call of `node:fs` looks at the disk of EnvFile/Disk.antt or changes it, and any of them may fail
-- and leave it as it is.
use cr3d_x.Base.{ℕ, zero, suc, String, ◌<>◌, true, false, Option, none, some, if◌then◌else◌}
use cr3d_x.Types.Port.{Result, ok, threw}
unfoldable pub use cr3d_x.EnvFile.Disk.{
  same_path, called, fault_code, pure, throw, try_catch, ◌>>=◌, lift, when, require, is_missing,
}
pub use cr3d_x.EnvFile.Disk.{
  FilePath, FileStat, FileInfo, DiskNode, ParentDirectory, Disk, Machine, DiskFault, Host, Io,
  recover, go_on, ◌>>◌, missing, file, link, special, io_error, denied, no_space, read_only,
}

unfoldable pub put_node : FilePath → Option DiskNode → Machine → Machine
put_node p entry m = record m { disk = λ q. if same_path q p then entry else m.disk q }

-- The path behind links, of which forty are followed.
unfoldable pub resolve_from : ℕ → Disk → FilePath → Option DiskNode → Result FilePath
resolve_from fuel disk p none = threw missing
resolve_from fuel disk p (some (file stat text)) = ok p
resolve_from fuel disk p (some (special stat)) = ok p
resolve_from zero disk p (some (link target)) = threw "ELOOP"
resolve_from (suc fuel) disk p (some (link target)) = resolve_from fuel disk target (disk target)

unfoldable pub resolve_links : Disk → FilePath → Result FilePath
resolve_links disk p = resolve_from 40 disk p (disk p)

unfoldable pub required : {A : Type 0} → Option A → Result A
required none = threw missing
required (some a) = ok a

-- The entry at the end of the links.
unfoldable pub node_at : Disk → Result FilePath → Result DiskNode
node_at disk (threw message) = threw message
node_at disk (ok p) = required (disk p)

unfoldable pub node_info : Result DiskNode → Result FileInfo
node_info (threw message) = threw message
node_info (ok (file stat text)) = ok (record { is_file = true; stat = stat })
node_info (ok (special stat)) = ok (record { is_file = false; stat = stat })
node_info (ok (link target)) = threw "ELOOP"

unfoldable pub file_text : Result DiskNode → Result String
file_text (ok (file stat text)) = ok text
file_text (ok _) = threw "EISDIR"
file_text (threw message) = threw message

unfoldable pub with_mode : ℕ → DiskNode → DiskNode
with_mode mode (file stat text) = file (record stat { mode = mode }) text
with_mode mode (special stat) = special (record stat { mode = mode })
with_mode mode (link target) = link target

-- The change of chmodSync.
unfoldable pub set_mode_at : ℕ → FilePath → Option DiskNode → Io Unit
set_mode_at mode p none m = (threw missing, m)
set_mode_at mode p (some entry) m = (ok tt, put_node p (some (with_mode mode entry)) m)

unfoldable pub set_mode : ℕ → Result FilePath → Io Unit
set_mode mode (threw message) m = (threw message, m)
set_mode mode (ok p) m = set_mode_at mode p (m.disk p) m

-- openSync(p, O_CREAT | O_EXCL | O_WRONLY, 0o600)
unfoldable pub create_at : FileStat → FilePath → Option DiskNode → Io Unit
create_at stat p (some entry) m = (threw "EEXIST", m)
create_at stat p none m = (ok tt, put_node p (some (file stat "")) m)

-- Where the write fails on the way, a part of the text is there.
unfoldable pub write_file :
    (String → FileStat → FileStat) → FilePath → FileStat → String → Option String → Io Unit
write_file written p stat text none m = (ok tt, put_node p (some (file (written text stat) text)) m)
write_file written p stat text (some part) m =
    (threw (fault_code no_space), put_node p (some (file (written part stat) part)) m)

unfoldable pub write_at :
    (String → FileStat → FileStat) → FilePath → String → Option String → Option DiskNode → Io Unit
write_at written p text torn (some (file stat old)) m = write_file written p stat text torn m
write_at written p text torn _ m = (threw "EBADF", m)

unfoldable pub rename_at : FilePath → FilePath → Option DiskNode → Io Unit
rename_at from to none m = (threw missing, m)
rename_at from to (some entry) m = (ok tt, put_node to (some entry) (put_node from none m))

unfoldable pub unlink_at : FilePath → Option DiskNode → Io Unit
unlink_at p none m = (threw missing, m)
unlink_at p (some entry) m = (ok tt, put_node p none m)

module _ (host : Host) where
  -- One call of `node:fs`.
  unfoldable pub os : {A : Type 0} → Io A → Io A
  os io m = elim (host.fault m.calls) [
    | some fault ↦ (threw (fault_code fault), called m)
    | none ↦ io (called m)
  ]

  unfoldable pub lstat : FilePath → Io DiskNode
  lstat p = os (λ m. (required (m.disk p), m))

  unfoldable pub stat_at : FilePath → Io FileInfo
  stat_at p = os (λ m. (node_info (node_at m.disk (resolve_links m.disk p)), m))

  unfoldable pub real_path : FilePath → Io FilePath
  real_path p = os (λ m. (resolve_links m.disk p, m))

  unfoldable pub read_text : FilePath → Io String
  read_text p = os (λ m. (file_text (node_at m.disk (resolve_links m.disk p)), m))

  unfoldable pub stat_parent : String → Io ParentDirectory
  stat_parent directory = os (λ m. (required (m.parents directory), m))

  unfoldable pub chmod : FilePath → ℕ → Io Unit
  chmod p mode = os (λ m. set_mode mode (resolve_links m.disk p) m)

  unfoldable pub create : FilePath → Io Unit
  create p = os (λ m. create_at (host.created m.calls) p (m.disk p) m)

  -- writeFileSync on the descriptor of a file that was just created
  unfoldable pub write : FilePath → String → Io Unit
  write p text = os (λ m. write_at (host.written m.calls) p text (host.torn m.calls) (m.disk p) m)

  -- fsyncSync and closeSync
  unfoldable pub sync : Io Unit
  sync = os (λ m. (ok tt, m))

  unfoldable pub rename : FilePath → FilePath → Io Unit
  rename from to = os (λ m. rename_at from to (m.disk from) m)

  unfoldable pub unlink : FilePath → Io Unit
  unlink p = os (λ m. unlink_at p (m.disk p) m)

  -- removeIfPresent
  unfoldable pub remove_if_present : FilePath → Io Unit
  remove_if_present p =
      try_catch (unlink p) (λ message. if is_missing message then pure tt else throw message)

  -- uniqueSibling: the process and a random part stand behind the name of the target.
  unfoldable pub sibling : FilePath → String → ℕ → FilePath
  sibling target purpose n = record {
    directory = target.directory;
    name = ("." <> target.name) <> (".cr3dx-" <> (purpose <> ("-" <> host.unique n)));
  }

  unfoldable pub unique_sibling : FilePath → String → Io FilePath
  unique_sibling target purpose m = (ok (sibling target purpose m.calls), m)
