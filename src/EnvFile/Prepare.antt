-- ===== src/EnvFile/Prepare.antt =====
-- scripts/lib/env-persistence.ts `prepareTarget`, which looks at the target and tries its filesystem
-- before any key is made, and `updateWalletEnv`.
use cr3d_x.Base.{
  ℕ, ◌%◌, ◌/◌, String, Bool, true, false, ◌&&◌, Option, none, some, List, ◌==◌, if◌then◌else◌,
}
use cr3d_x.Types.Port.{Result}
use cr3d_x.EnvFile.Machine.{
  FilePath, FileInfo, DiskNode, file, link, special, Host, Io, pure, throw, try_catch, lift, ◌>>=◌,
  ◌>>◌, when, require, is_missing, lstat, stat_at, stat_parent, real_path, read_text, create, sync,
  rename, remove_if_present, unique_sibling,
}
use cr3d_x.EnvFile.Replace.{
  FileIdentity, PreparedTarget, is_regular, private_mode, fill_temporary, atomic_replace,
}
use cr3d_x.EnvFile.Update.{WalletUpdate, decide}

unfoldable pub identity_of : FileInfo → FileIdentity
identity_of info = record {
  device = info.stat.device;
  inode = info.stat.inode;
  size = info.stat.size;
  modified = info.stat.modified;
}

-- expectedUid === undefined || uid === expectedUid
unfoldable pub is_owner : Option ℕ → ℕ → Bool
is_owner none user = true
is_owner (some expected) user = user == expected

-- (mode & 0o022) === 0
unfoldable pub no_shared_write : ℕ → Bool
no_shared_write mode = ((mode / 16) % 2 == 0) && ((mode / 2) % 2 == 0)

unfoldable pub existed : PreparedTarget → Bool
existed target = elim target.found [ none ↦ false | some identity ↦ true ]

abbrev pub probe_failed : String
probe_failed =
    "The .env target filesystem cannot complete a private atomic sibling write; no wallet keys were generated."

pub record WalletEnvUpdateResult : Type 0 where
  pub keys : List String
  pub changed : Bool
  pub target_path : FilePath
  pub symlink : Bool

module _ (host : Host) where
  unfoldable pub assert_owned_regular_file : FilePath → Io FileIdentity
  assert_owned_regular_file p = do
    info ← stat_at host p
    require info.is_file
        "The resolved .env target is not a regular file; refusing to store private keys."
    require (is_owner host.user info.stat.user)
        "The resolved .env target belongs to another user; refusing to store private keys."
    private_mode host p
    checked ← stat_at host p
    pure (identity_of checked)

  unfoldable pub assert_private_parent : FilePath → Io Unit
  assert_private_parent p = do
    parent ← stat_parent host p.directory
    require parent.is_directory
        "The .env target parent is not a directory; refusing to generate keys."
    require (is_owner host.user parent.stat.user)
        "The .env target parent belongs to another user; refusing to generate keys."
    require (no_shared_write parent.stat.mode)
        "The .env target parent is writable by group or others; refusing to generate keys."

  -- The finally of assertPrivateAtomicFilesystem.
  unfoldable pub tidy : Bool → FilePath → FilePath → Io Unit
  tidy fd_open first second = do
    when fd_open (sync host)
    remove_if_present host first
    remove_if_present host second

  unfoldable pub or_tidy : Bool → FilePath → FilePath → Io Unit → Io Unit
  or_tidy fd_open first second io =
      try_catch io (λ message. do tidy fd_open first second; throw probe_failed)

  unfoldable pub probe_rename : FilePath → FilePath → Io Unit
  probe_rename first second = do
    private_mode host first
    rename host first second
    renamed ← lstat host second
    require (is_regular renamed) "The atomic-write probe did not remain a regular file."

  unfoldable pub assert_private_atomic_filesystem : FilePath → Io Unit
  assert_private_atomic_filesystem target = do
    first ← unique_sibling host target "probe"
    second ← unique_sibling host target "probe-renamed"
    or_tidy false first second (create host first)
    or_tidy true first second (fill_temporary host first "")
    or_tidy false first second (probe_rename first second)
    tidy false first second

  -- The lstat of prepareTarget, none where the path is missing.
  unfoldable pub inspect : FilePath → Io (Option DiskNode)
  inspect p =
      try_catch (do entry ← lstat host p; pure (some entry))
        (λ message.
          if is_missing message
          then pure none
          else throw "The .env path cannot be inspected safely; refusing to generate keys.")

  unfoldable pub prepare_missing : FilePath → Io PreparedTarget
  prepare_missing p = do
    assert_private_parent p
    assert_private_atomic_filesystem p
    pure (record {
      requested_path = p;
      target_path = p;
      original = "";
      symlink = false;
      found = none;
    })

  unfoldable pub prepare_existing : FilePath → FilePath → Bool → Io PreparedTarget
  prepare_existing requested target symlink = do
    identity ← assert_owned_regular_file target
    assert_private_parent target
    assert_private_atomic_filesystem target
    original ← read_text host target
    pure (record {
      requested_path = requested;
      target_path = target;
      original = original;
      symlink = symlink;
      found = some identity;
    })

  unfoldable pub prepare_from : FilePath → Option DiskNode → Io PreparedTarget
  prepare_from p none = prepare_missing p
  prepare_from p (some (link next)) = do
    real ← try_catch (real_path host p) (λ message.
        throw
          "The .env symlink is dangling or cannot be resolved safely; refusing to generate keys.")
    prepare_existing p real true
  prepare_from p (some (file stat text)) = prepare_existing p p false
  prepare_from p (some (special stat)) =
      throw "The .env path has an unexpected filesystem type; refusing to generate keys."

  unfoldable pub prepare_target : FilePath → Io PreparedTarget
  prepare_target p = do requested ← inspect p; prepare_from p requested

  unfoldable pub save_update : PreparedTarget → WalletUpdate → Io WalletEnvUpdateResult
  save_update target update = do
    when update.changed (atomic_replace host target update.contents)
    pure (record {
      keys = update.keys;
      changed = update.changed;
      target_path = target.target_path;
      symlink = target.symlink;
    })

  unfoldable pub update_wallet_env :
      (ℕ → Result (List String)) → FilePath → Io WalletEnvUpdateResult
  update_wallet_env generate_keys p = do
    target ← prepare_target p
    update ← lift (decide generate_keys target.original (existed target))
    save_update target update
