-- ===== src/EnvFile/Prepared.antt =====
-- scripts/lib/env-persistence.ts `prepareTarget`: the text that it returns is the one of the target.
use cr3d_x.Base.{
  String, ◌≡◌, refl, sym, ap, ◌∙◌, Bool, true, false, Option, none, some, ◌⊎◌, inl, inr,
}
use cr3d_x.Types.Port.{ok}
use cr3d_x.EnvFile.Machine.{
  FilePath, DiskNode, file, link, special, Disk, Host, Io, pure, throw, try_catch, resolve_from,
  resolve_links, node_at, file_text, real_path, read_text,
}
use cr3d_x.EnvFile.Replace.{PreparedTarget}
use cr3d_x.EnvFile.Prepare.{
  prepare_missing, prepare_existing, prepare_from, prepare_target, existed,
}
use cr3d_x.EnvFile.Triples.{
  Triple, Triple-throw, Triple-given, Triple-weaken, Triple-weaken_throw, Triple-bind,
  Triple-try_catch, Triple-look,
}
use cr3d_x.EnvFile.Kept.{IsKept, Always, Keeps}
use cr3d_x.EnvFile.Probe.{assert_private_atomic_filesystem-Keeps, assert_private_parent-Keeps}
use cr3d_x.EnvFile.Seen.{IsSeen, inspect-Leaves}
use cr3d_x.EnvFile.Tightened.{
  IsPrivately, IsTightened, Same, Private, Tightened, same-Tightened, private-Tightened,
  assert_owned_regular_file-Triple,
}
unfoldable pub use cr3d_x.EnvFile.Originals.{original_of}
use cr3d_x.EnvFile.Originals.{
  original_of-with_mode, is_followed, is_followed-with_mode, resolve_from-ends, read-original_of,
}

-- The entry of a target that exists is private now, and one that is missing is still missing.
unfoldable pub IsChecked : Bool → Option DiskNode → Option DiskNode → Type 0
IsChecked true old new = IsPrivately old new
IsChecked false old new = new ≡ old

-- The path that was asked for, or the one behind its links.
abbrev pub IsTargetOf : Disk → FilePath → FilePath → Type 0
IsTargetOf d0 p t = (t ≡ p) ⊎ (resolve_links d0 p ≡ ok t)

module _ (host : Host) (d0 : Disk) (p : FilePath) where
  unfoldable pub IsPrepared : PreparedTarget → Disk → Type 0
  IsPrepared target d =
      IsKept host target.target_path (IsChecked (existed target) (d0 target.target_path)) d0 d
      × ((original_of (d0 target.target_path) ≡ some (target.original, existed target))
          × IsTargetOf d0 p target.target_path)

  -- All paths but siblings of the target are as they were; only the mode of the target may be 600 now.
  unfoldable pub IsKeptSomewhere : Disk → Type 0
  IsKeptSomewhere d = (t : FilePath) × IsTargetOf d0 p t × IsKept host t (IsTightened (d0 t)) d0 d

  Starts : {A : Type 0} → Io A → (A → Disk → Type 0) → Type 0
  Starts io Q = Triple Always (λ d. d ≡ d0) io Q IsKeptSomewhere

  module _ (t : FilePath) where
    disk-Same : (d : Disk) → d ≡ d0 → Same host t d0 d
    unfolding IsKept
    disk-Same d same = (ap (λ (x : Disk). x t) same, λ q foreign other. ap (λ (x : Disk). x q) same)

    starts :
        {A : Type 0} (io : Io A) (Q : A → Disk → Type 0)
        → IsTargetOf d0 p t
        → Triple Always (Same host t d0) io Q (Tightened host t d0)
        → Starts io Q
    unfolding Starts IsKeptSomewhere
    starts io Q of s =
        Triple-weaken_throw io (λ d k. (t, of, k)) (Triple-weaken io disk-Same (λ a d q. q) s)

    Private-original :
        (d : Disk) (text : String)
        → is_followed (d0 t) ≡ false
        → Private host t d0 d
        → file_text (node_at d (resolve_links d t)) ≡ ok text
        → original_of (d0 t) ≡ some (text, true)
    unfolding IsKept resolve_links IsPrivately
    Private-original d text plain k look =
        let (entry, old, new) = k.0 in
        let plain' : is_followed (d t) ≡ false =
          ap is_followed new ∙ is_followed-with_mode _ entry ∙ sym (ap is_followed old) ∙ plain in
        ap original_of old
        ∙ sym (original_of-with_mode _ entry)
        ∙ sym (ap original_of new)
        ∙ read-original_of d t (d t) text refl plain' look

    abbrev tightens :
        {A : Type 0} {P Q : Disk → Type 0} (io : Io A)
        → Triple Always P io (λ _ d. Q d) (Private host t d0)
        → Triple Always P io (λ _ d. Q d) (Tightened host t d0)
    tightens io keeps = Triple-weaken_throw io (private-Tightened host t d0) keeps

    prepare_existing-Triple :
        (requested : FilePath) (symlink : Bool)
        → IsTargetOf d0 p t
        → is_followed (d0 t) ≡ false
        → Starts (prepare_existing host requested t symlink) IsPrepared
    unfolding prepare_existing read_text IsPrepared IsChecked existed Keeps pure
    prepare_existing-Triple requested symlink of plain = starts _ _ of (
        Triple-bind _ _ (assert_owned_regular_file-Triple host t d0 plain) (λ identity.
          Triple-bind _ _
            (tightens _ (assert_private_parent-Keeps host t (IsPrivately (d0 t)) d0 t))
            (λ _.
              Triple-bind _ _
                (tightens _ (assert_private_atomic_filesystem-Keeps host t (IsPrivately (d0 t)) d0))
                (λ _.
                  Triple-bind _ _ (Triple-look host _ (private-Tightened host t d0) (λ d k. tt))
                    (λ text. record {
                      at = λ m i k. (i, (k.0, (Private-original m.disk text plain k.0 k.1, of)));
                    })))))

    prepare_missing-Triple :
        IsTargetOf d0 p t → d0 t ≡ none → Starts (prepare_missing host t) IsPrepared
    unfolding prepare_missing IsPrepared IsChecked existed Keeps pure original_of
    prepare_missing-Triple of gone = starts _ _ of (
        Triple-weaken_throw _ (same-Tightened host t d0) (
          Triple-bind _ _ (assert_private_parent-Keeps host t (λ o. o ≡ d0 t) d0 t) (λ _.
            Triple-bind _ _ (assert_private_atomic_filesystem-Keeps host t (λ o. o ≡ d0 t) d0)
              (λ _. record { at = λ m i k. (i, (k, (rw gone refl, of))) }))))

  nothing-IsKeptSomewhere : (d : Disk) → d ≡ d0 → IsKeptSomewhere d
  unfolding IsKeptSomewhere
  nothing-IsKeptSomewhere d same = (p, inl refl, same-Tightened host p d0 d (disk-Same p d same))

  throws-Triple : {A : Type 0} (message : String) (Q : A → Disk → Type 0) → Starts (throw message) Q
  unfolding Starts
  throws-Triple message Q = Triple-throw message nothing-IsKeptSomewhere

  -- Where the links end.
  follow-Triple :
      Triple Always
        (λ d. d ≡ d0)
        (try_catch (real_path host p) (λ message.
          throw
            "The .env symlink is dangling or cannot be resolved safely; refusing to generate keys."))
        (λ real d. (d ≡ d0) × ((resolve_links d0 p ≡ ok real) × (is_followed (d0 real) ≡ false)))
        IsKeptSomewhere
  unfolding real_path resolve_links Starts
  follow-Triple =
      Triple-try_catch _ _
        (Triple-weaken _ (λ d same. same)
          (λ real d (same, look). (
            same,
            (
              ap (λ (x : Disk). resolve_from 40 x p (x p)) (sym same) ∙ look,
              ap is_followed (ap (λ (x : Disk). x real) (sym same))
                  ∙ resolve_from-ends 40 d p (d p) real refl look,
            ),
          ))
          (Triple-look host _ (λ d same. same) (λ d same. tt)))
        (λ message. throws-Triple _ _)

  prepare_from-Triple :
      (entry : Option DiskNode)
      → Triple Always (IsSeen d0 p entry) (prepare_from host p entry) IsPrepared IsKeptSomewhere
  unfolding prepare_from IsSeen Starts is_followed
  prepare_from-Triple none = Triple-given _ (λ gone. prepare_missing-Triple p (inl refl) gone)
  prepare_from-Triple (some (link next)) = Triple-given _ (λ there.
      Triple-bind _ _ follow-Triple (λ real.
        Triple-given _ (λ (leads, plain). prepare_existing-Triple real p true (inr leads) plain)))
  prepare_from-Triple (some (file stat text)) =
      Triple-given _ (λ there. prepare_existing-Triple p p false (inl refl) (ap is_followed there))
  prepare_from-Triple (some (special stat)) = Triple-given _ (λ there. throws-Triple _ _)

  pub prepare_target-Triple :
      Triple Always (λ d. d ≡ d0) (prepare_target host p) IsPrepared IsKeptSomewhere
  unfolding prepare_target
  prepare_target-Triple =
      Triple-bind _ _
        (Triple-weaken_throw _ nothing-IsKeptSomewhere
          (record { at = λ m i same. inspect-Leaves d0 host p m i same }))
        prepare_from-Triple
