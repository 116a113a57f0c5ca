-- ===== src/EnvFile/Replace.antt =====
-- scripts/lib/env-persistence.ts `privateMode`, `assertTargetUnchanged` and `atomicReplace`.
use cr3d_x.Base.{
  ℕ, ◌+◌, ◌*◌, ◌/◌, ◌%◌, String, ◌<>◌, decimal, Bool, true, false, ◌&&◌, Option, none, some, ◌==◌,
  if◌then◌else◌,
}
use cr3d_x.EnvFile.Machine.{
  FilePath, same_path, FileInfo, DiskNode, file, link, Host, Io, pure, throw, try_catch, ◌>>=◌,
  ◌>>◌, when, require, is_missing, lstat, stat_at, real_path, chmod, create, write, sync, rename,
  remove_if_present, unique_sibling,
}

-- What `prepareTarget` notes of the file that it found.
pub record FileIdentity : Type 0 where
  pub device : ℕ
  pub inode : ℕ
  pub size : ℕ
  pub modified : ℕ

-- `found` is none where the file did not exist.
pub record PreparedTarget : Type 0 where
  pub requested_path : FilePath
  pub target_path : FilePath
  pub original : String
  pub symlink : Bool
  pub found : Option FileIdentity

unfoldable pub is_link : DiskNode → Bool
is_link (link target) = true
is_link _ = false

unfoldable pub is_regular : DiskNode → Bool
is_regular (file stat text) = true
is_regular _ = false

unfoldable pub has_identity : FileIdentity → FileInfo → Bool
has_identity identity info =
    info.is_file
    && (info.stat.device == identity.device)
    && (info.stat.inode == identity.inode)
    && (info.stat.size == identity.size)
    && (info.stat.modified == identity.modified)

abbrev pub private_bits : ℕ
private_bits = 0o600

-- toString(8) of a mode below 512
unfoldable pub octal : ℕ → String
octal mode = decimal ((mode / 64) * 100 + ((mode / 8) % 8) * 10 + mode % 8)

unfoldable pub mode_message : ℕ → String
mode_message actual =
    "The filesystem reports mode "
    <> (octal actual
        <> (" after chmod 600; refusing to store private keys. "
            <> "Use a filesystem with private POSIX modes or inject the variables through the process environment."))

module _ (host : Host) where
  -- 0o777n is the nine bits below 512.
  unfoldable pub private_mode : FilePath → Io Unit
  private_mode p = do
    chmod host p private_bits
    info ← stat_at host p
    require (info.stat.mode % 512 == private_bits) (mode_message (info.stat.mode % 512))

  unfoldable pub still_missing : FilePath → Io Unit
  still_missing p =
      try_catch
        (do
          lstat host p
          throw "The .env path appeared during wallet generation; refusing to replace it.")
        (λ message. if is_missing message then pure tt else throw message)

  unfoldable pub leads_to : FilePath → FilePath → DiskNode → Io Unit
  leads_to requested target (link next) = do
    real ← real_path host requested
    require (same_path real target)
        "The .env symlink changed during wallet generation; refusing to write keys."
  leads_to requested target _ =
      throw "The .env symlink changed during wallet generation; refusing to write keys."

  unfoldable pub still_leads : PreparedTarget → DiskNode → Io Unit
  still_leads target entry =
      if target.symlink
      then leads_to target.requested_path target.target_path entry
      else require (is_regular entry)
          "The .env file changed type during wallet generation; refusing to write keys."

  unfoldable pub still_identical : PreparedTarget → FileIdentity → Io Unit
  still_identical target identity = do
    requested ← lstat host target.requested_path
    still_leads target requested
    current ← stat_at host target.target_path
    require (has_identity identity current)
        "The resolved .env target changed during wallet generation; refusing to write keys."

  unfoldable pub still_as : PreparedTarget → Option FileIdentity → Io Unit
  still_as target none = still_missing target.requested_path
  still_as target (some identity) = still_identical target identity

  unfoldable pub assert_target_unchanged : PreparedTarget → Io Unit
  assert_target_unchanged target = still_as target target.found

  -- The catch of atomicReplace, which closes the descriptor where it is open.
  unfoldable pub clean_up : Bool → FilePath → String → Io Unit
  clean_up fd_open temporary message = do
    when fd_open (sync host)
    remove_if_present host temporary
    throw message

  unfoldable pub or_clean_up : Bool → FilePath → Io Unit → Io Unit
  or_clean_up fd_open temporary io = try_catch io (clean_up fd_open temporary)

  unfoldable pub fill_temporary : FilePath → String → Io Unit
  fill_temporary temporary contents = do write host temporary contents; sync host; sync host

  unfoldable pub put_in_place : PreparedTarget → FilePath → Io Unit
  put_in_place target temporary = do
    private_mode temporary
    assert_target_unchanged target
    rename host temporary target.target_path

  -- atomicReplace, without the seam that tests use
  unfoldable pub atomic_replace : PreparedTarget → String → Io Unit
  atomic_replace target contents = do
    temporary ← unique_sibling host target.target_path "write"
    or_clean_up false temporary (create host temporary)
    or_clean_up true temporary (fill_temporary temporary contents)
    or_clean_up false temporary (put_in_place target temporary)
