-- ===== src/EnvFile/Looks.antt =====
-- scripts/lib/env-persistence.ts `assertTargetUnchanged` only looks at the disk.
use cr3d_x.Base.{String, Bool, true, false, Option, none, some, if◌then◌else◌}
use cr3d_x.Types.Port.{Result}
use cr3d_x.EnvFile.Machine.{
  FilePath, DiskNode, file, link, special, Disk, Host, Io, pure, throw, require, is_missing, os,
  lstat, stat_at, real_path,
}
use cr3d_x.EnvFile.Replace.{
  FileIdentity, PreparedTarget, is_regular, still_missing, leads_to, still_leads, still_identical,
  still_as, assert_target_unchanged,
}
use cr3d_x.EnvFile.Triples.{
  Triple, Triple-throw, Triple-weaken, Triple-bind, Triple-try_catch, Triple-look, Triple-pure,
  Triple-require,
}

-- Calls that look, and may throw, leave what is there.
module _ {I P E : Disk → Type 0} (host : Host) (weaker : (d : Disk) → P d → E d)
    (keeps : (d : Disk) → P d → I d) where
  abbrev Looks : {A : Type 0} → Io A → Type 0
  Looks io = Triple I P io (λ _ d. P d) E

  looks : {A : Type 0} (g : Disk → Result A) → Looks (os host (λ m. (g m.disk, m)))
  looks g = Triple-weaken _ (λ d p. p) (λ a d p. p.0) (Triple-look host g weaker keeps)

  requires : (test : Bool) (message : String) → Looks (require test message)
  requires test message =
      Triple-weaken _ (λ d p. p) (λ a d p. p.0) (Triple-require test message weaker)

  still_missing-Looks : (p : FilePath) → Looks (still_missing host p)
  unfolding still_missing lstat
  still_missing-Looks p =
      Triple-try_catch _ _
        (Triple-bind _ _ (Triple-look host _ (λ d q. q) keeps) (λ _. Triple-throw _ (λ d q. q.0)))
        (λ message. or_throws message (is_missing message))
    where
      or_throws :
          (message : String) (test : Bool)
          → Triple I P (if test then pure tt else throw message) (λ _ d. P d) E
      or_throws message true = Triple-pure tt
      or_throws message false = Triple-throw message weaker

  leads_to-Looks :
      (requested target : FilePath) (entry : DiskNode)
      → Looks (leads_to host requested target entry)
  unfolding leads_to real_path
  leads_to-Looks requested target (link next) = Triple-bind _ _ (looks _) (λ real. requires _ _)
  leads_to-Looks requested target (file stat text) = Triple-throw _ weaker
  leads_to-Looks requested target (special stat) = Triple-throw _ weaker

  still_leads-Looks :
      (target : PreparedTarget) (entry : DiskNode) → Looks (still_leads host target entry)
  unfolding still_leads
  still_leads-Looks target entry = by_kind target.symlink
    where
      by_kind :
          (test : Bool)
          → Looks (
              if test
              then leads_to host target.requested_path target.target_path entry
              else require
                  (is_regular entry)
                  "The .env file changed type during wallet generation; refusing to write keys.")
      by_kind true = leads_to-Looks _ _ entry
      by_kind false = requires _ _

  still_identical-Looks :
      (target : PreparedTarget) (identity : FileIdentity)
      → Looks (still_identical host target identity)
  unfolding still_identical lstat stat_at
  still_identical-Looks target identity = Triple-bind _ _ (looks _) (λ requested.
      Triple-bind _ _ (still_leads-Looks target requested)
        (λ _. Triple-bind _ _ (looks _) (λ current. requires _ _)))

  still_as-Looks :
      (target : PreparedTarget) (found : Option FileIdentity) → Looks (still_as host target found)
  unfolding still_as
  still_as-Looks target none = still_missing-Looks target.requested_path
  still_as-Looks target (some identity) = still_identical-Looks target identity

  pub assert_target_unchanged-Looks :
      (target : PreparedTarget) → Triple I P (assert_target_unchanged host target) (λ _ d. P d) E
  unfolding assert_target_unchanged
  assert_target_unchanged-Looks target = still_as-Looks target target.found
