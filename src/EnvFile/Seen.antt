-- ===== src/EnvFile/Seen.antt =====
-- scripts/lib/env-persistence.ts: the first look of `prepareTarget` at its path.
use cr3d_x.Base.{◌≡◌, refl, sym, ap, ◌∙◌, false, Option, none, some, if◌then◌else◌, All}
use cr3d_x.Types.Port.{Result, threw}
use cr3d_x.EnvFile.Machine.{
  FilePath, DiskNode, Disk, DiskFault, fault_code, Machine, called, Host, pure, throw, try_catch,
  ◌>>=◌, is_missing, required, os, lstat, recover, go_on,
}
use cr3d_x.EnvFile.Prepare.{inspect}
use cr3d_x.EnvFile.Triples.{Leaves}
use cr3d_x.EnvFile.Kept.{Always}

-- A failing call never says that the path is missing.
fault-not_missing : (fault : DiskFault) → is_missing (fault_code fault) ≡ false
unfolding is_missing fault_code
fault-not_missing DiskFault.io_error = refl
fault-not_missing DiskFault.denied = refl
fault-not_missing DiskFault.no_space = refl
fault-not_missing DiskFault.read_only = refl

module _ (d0 : Disk) where
  unfoldable pub IsSeen : FilePath → Option DiskNode → Disk → Type 0
  IsSeen p entry d = (d ≡ d0) × (d0 p ≡ entry)

  -- What `inspect` makes of the answer of `lstat`.
  told_by : Result DiskNode × Machine → Result (Option DiskNode) × Machine
  told_by (r, m) =
      let (r', m') = go_on r (λ entry. pure (some entry)) m in
      recover r'
        (λ message.
          if is_missing message
          then pure none
          else throw "The .env path cannot be inspected safely; refusing to generate keys.")
        m'

  told_by-Leaves :
      (p : FilePath) (m : Machine) (entry : Option DiskNode) (lucky : Option DiskFault)
      → All Always m.past
      → m.disk ≡ d0
      → m.disk p ≡ entry
      → Leaves Always
          (IsSeen p)
          (λ d. d ≡ d0)
          (told_by (elim lucky as (λ _. Result DiskNode × Machine) [
            | some fault ↦ (threw (fault_code fault), called m)
            | none ↦ (required entry, called m)
          ]))
  unfolding told_by pure throw IsSeen required called is_missing
  told_by-Leaves p m none none i same there =
      ((tt, i), (same, ap (λ (d : Disk). d p) (sym same) ∙ there))
  told_by-Leaves p m (some entry) none i same there =
      ((tt, i), (same, ap (λ (d : Disk). d p) (sym same) ∙ there))
  told_by-Leaves p m entry (some fault) i same there = rw (fault-not_missing fault) ((tt, i), same)

  pub inspect-Leaves :
      (host : Host) (p : FilePath) (m : Machine)
      → All Always m.past
      → m.disk ≡ d0
      → Leaves Always (IsSeen p) (λ d. d ≡ d0) (inspect host p m)
  unfolding inspect lstat os try_catch ◌>>=◌ told_by called
  inspect-Leaves host p m i same = told_by-Leaves p m (m.disk p) (host.fault m.calls) i same refl
