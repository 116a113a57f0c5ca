-- ===== src/EnvFile/Saved.antt =====
-- scripts/lib/env-persistence.ts `updateWalletEnv`, whatever calls fail.
use cr3d_x.Base.{ℕ, String, ◌≡◌, refl, Bool, false, some, List, [], ◌∷◌, All}
use cr3d_x.Types.Port.{Result, ok, threw}
use cr3d_x.EnvFile.Machine.{FilePath, same_path, Disk, Machine, Host, pure, lift}
use cr3d_x.EnvFile.Replace.{PreparedTarget}
use cr3d_x.EnvFile.Prepare.{existed, save_update, WalletEnvUpdateResult, update_wallet_env}
use cr3d_x.EnvFile.Update.{WalletUpdate, decide}
use cr3d_x.EnvFile.Triples.{Post, Triple, Triple-given, Triple-weaken_throw, Triple-bind}
use cr3d_x.EnvFile.Kept.{IsForeign, Always}
use cr3d_x.EnvFile.Prepared.{
  original_of, IsTargetOf, IsPrepared, IsKeptSomewhere, prepare_target-Triple,
}
use cr3d_x.EnvFile.Saving.{
  IsSaved, IsPut, Checked, changed_or_existed, checked-tightened, save-Triple,
}

-- The answer is the decision on the text that the target had, and the target has what was decided.
pub record IsUpdated (host : Host) (generate_keys : ℕ → Result (List String)) (p : FilePath)
    (d0 : Disk) (result : WalletEnvUpdateResult) (d : Disk) : Type 0 where
  pub original : String
  pub existing : Bool
  pub update : WalletUpdate
  pub leads : IsTargetOf d0 p result.target_path
  pub read : original_of (d0 result.target_path) ≡ some (original, existing)
  pub decided : decide generate_keys original existing ≡ ok update
  pub keys : result.keys ≡ update.keys
  pub changed : result.changed ≡ update.changed
  pub saved :
      IsSaved update.changed original update.contents (d0 result.target_path) (d result.target_path)
  pub rest :
      (q : FilePath)
      → IsForeign host result.target_path q
      → same_path q result.target_path ≡ false
      → d q ≡ d0 q

module _ (host : Host) (generate_keys : ℕ → Result (List String)) (p : FilePath) (d0 : Disk) where
  save_update-Triple :
      (target : PreparedTarget) (update : WalletUpdate)
      → IsTargetOf d0 p target.target_path
      → original_of (d0 target.target_path) ≡ some (target.original, existed target)
      → decide generate_keys target.original (existed target) ≡ ok update
      → Triple Always
          (Checked host d0 target)
          (save_update host target update)
          (λ result d. IsUpdated host generate_keys p d0 result d)
          (IsKeptSomewhere host d0 p)
  unfolding save_update IsKeptSomewhere pure IsPut
  save_update-Triple target update leads read decided =
      Triple-weaken_throw _ (λ d k. (target.target_path, leads, k))
        (Triple-bind _ _
          (save-Triple host d0 target update.changed update.contents
            (changed_or_existed generate_keys (existed target) target.original update decided) read)
          (λ _. record {
            at = λ m i k. (
              i,
              record {
                original = target.original;
                existing = existed target;
                update = update;
                leads = leads;
                read = read;
                decided = decided;
                keys = refl;
                changed = refl;
                saved = k.0;
                rest = k.1;
              },
            );
          }))

  decide-Triple :
      (target : PreparedTarget)
      → Triple Always
          (IsPrepared host d0 p target)
          (lift (decide generate_keys target.original (existed target)))
          (λ update d.
            IsPrepared host d0 p target d
            × (decide generate_keys target.original (existed target) ≡ ok update))
          (IsKeptSomewhere host d0 p)
  unfolding lift IsKeptSomewhere IsPrepared
  decide-Triple target = record {
    at = λ m i k. (i, told (decide generate_keys target.original (existed target)) refl m.disk k);
  }
    where
      told :
          (r : Result WalletUpdate)
          → decide generate_keys target.original (existed target) ≡ r
          → (d : Disk) → IsPrepared host d0 p target d
          → Post
              (λ update d.
                IsPrepared host d0 p target d
                × (decide generate_keys target.original (existed target) ≡ ok update))
              (IsKeptSomewhere host d0 p)
              r
              d
      told (ok update) eq d k = (k, eq)
      told (threw message) eq d k =
          (target.target_path, k.1.1, checked-tightened host d0 target d k.0)

  update_wallet_env-Triple :
      Triple Always
        (λ d. d ≡ d0)
        (update_wallet_env host generate_keys p)
        (λ result d. IsUpdated host generate_keys p d0 result d)
        (IsKeptSomewhere host d0 p)
  unfolding update_wallet_env IsPrepared
  update_wallet_env-Triple = Triple-bind _ _ (prepare_target-Triple host d0 p) (λ target.
      Triple-bind _ _ (decide-Triple target) (λ update. Triple-given _ (λ decided.
        Triple-given _ (λ (read, leads). save_update-Triple target update leads read decided))))

always : (past : List Disk) → All Always past
always [] = tt
always (d ∷ past) = (tt, always past)

-- Whatever calls fail: where `updateWalletEnv` returns, its target is the path or the one behind its links,
-- and its keys are the decision on the text that the target had when it began. The target is then a file of
-- mode 600 with the decided text or, where nothing changed, the very file that it was, with its text and now
-- with mode 600; and every other path but siblings with names of the component has the entry that it had.
-- Where it throws, every path but siblings of the target has the entry that it had, but for the target's
-- mode, which may be 600 now.
pub update_wallet_env-IsUpdated :
    (host : Host) (generate_keys : ℕ → Result (List String)) (p : FilePath) (m : Machine)
    → Post
        (λ result d. IsUpdated host generate_keys p m.disk result d)
        (IsKeptSomewhere host m.disk p)
        (update_wallet_env host generate_keys p m).0
        (update_wallet_env host generate_keys p m).1.disk
update_wallet_env-IsUpdated host generate_keys p m =
    ((update_wallet_env-Triple host generate_keys p m.disk).at m (always m.past) refl).1
