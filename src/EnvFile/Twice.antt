-- ===== src/EnvFile/Twice.antt =====
-- Two runs of `updateWalletEnv` of scripts/lib/env-persistence.ts, one after the other.
use cr3d_x.Base.{
  ℕ, String, ◌≡◌, refl, sym, ap, ◌∙◌, subst, Bool, true, false, Option, none, some, List, [],
}
use cr3d_x.Types.Fallible.{ok-eq}
use cr3d_x.Types.Port.{Result, ok, threw}
use cr3d_x.EnvFile.Machine.{FilePath, same_path, DiskNode, Disk, Machine, Host}
use cr3d_x.EnvFile.Prepare.{WalletEnvUpdateResult, update_wallet_env}
use cr3d_x.EnvFile.Update.{WalletUpdate, decide}
use cr3d_x.EnvFile.Stability.{decide-IsStable}
use cr3d_x.EnvFile.Triples.{Post}
use cr3d_x.EnvFile.Temporary.{IsPrivateFile}
use cr3d_x.EnvFile.Kept.{IsForeign}
use cr3d_x.EnvFile.Prepared.{original_of, IsKeptSomewhere}
use cr3d_x.EnvFile.Saving.{IsUntouched, IsSaved}
use cr3d_x.EnvFile.Saved.{IsUpdated, update_wallet_env-IsUpdated}

-- What a run that returns has done.
returned :
    (host : Host) (generate_keys : ℕ → Result (List String)) (p : FilePath) (m : Machine)
    {r : WalletEnvUpdateResult} {n : Machine}
    → update_wallet_env host generate_keys p m ≡ (ok r, n)
    → IsUpdated host generate_keys p m.disk r n.disk
returned host generate_keys p m {r} {n} run =
    subst
      (λ x.
        Post (λ result d. IsUpdated host generate_keys p m.disk result d)
          (IsKeptSomewhere host m.disk p) x.0 x.1.disk)
      run (update_wallet_env-IsUpdated host generate_keys p m)

module _ (generate_keys : ℕ → Result (List String)) (none_made : generate_keys 0 ≡ ok []) where
  Repeats : WalletUpdate → Option (String × Bool) → Type 0
  Repeats u found =
      (text : String) × (existing : Bool) × (again : WalletUpdate) × (found ≡ some (text, existing))
      × (decide generate_keys text existing ≡ ok again)
      × (again.keys ≡ u.keys)
      × (again.changed ≡ false)

  repeats :
      (u : WalletUpdate) (changed : Bool) (original : String) (existing : Bool)
      (old new : Option DiskNode)
      → u.changed ≡ changed
      → decide generate_keys original existing ≡ ok u
      → original_of old ≡ some (original, existing)
      → IsSaved changed original u.contents old new
      → Repeats u (original_of new)
  unfolding IsSaved IsUntouched IsPrivateFile Repeats original_of
  repeats u true original existing old new is decided read (stat, there, private) =
      let s = decide-IsStable generate_keys original existing none_made decided in
      (u.contents, true, s.again, ap original_of there, s.runs, s.same_keys, s.unchanged)
  repeats u false original existing old new is decided read (stat, was, now) = (
    original,
    existing,
    u,
    ap original_of now ∙ sym (ap original_of was) ∙ read,
    decided,
    refl,
    is,
  )

  same_answer :
      (u : WalletUpdate) (found : Option (String × Bool)) (text : String) (existing : Bool)
      (v : WalletUpdate)
      → Repeats u found
      → found ≡ some (text, existing)
      → decide generate_keys text existing ≡ ok v
      → (v.keys ≡ u.keys) × (v.changed ≡ false)
  unfolding Repeats
  same_answer u found text existing v (text', existing', again, read, decided, keys, unchanged)
        read' decided' =
      let same : decide generate_keys text existing ≡ ok again =
        ap (λ (x : Option (String × Bool)). of_found x) (sym read' ∙ read) ∙ decided in
      let are : v ≡ again = ok-eq (sym decided' ∙ same) in
      (
        ap (λ (x : WalletUpdate). x.keys) are ∙ keys,
        ap (λ (x : WalletUpdate). x.changed) are ∙ unchanged,
      )
    where
      of_found : Option (String × Bool) → Result WalletUpdate
      of_found none = threw ""
      of_found (some (t, b)) = decide generate_keys t b

-- What a second run answers beside the first, and what it does to the disk that it found.
pub record IsRepeated (host : Host) (r r' : WalletEnvUpdateResult) (d d' : Disk) : Type 0 where
  pub keys : r'.keys ≡ r.keys
  pub unchanged : r'.changed ≡ false
  pub text : String
  pub untouched : IsUntouched text (d r'.target_path) (d' r'.target_path)
  pub rest :
      (q : FilePath)
      → IsForeign host r'.target_path q
      → same_path q r'.target_path ≡ false
      → d' q ≡ d q

repeated :
    (host : Host) (generate_keys : ℕ → Result (List String)) (p : FilePath)
    (r r' : WalletEnvUpdateResult) (d d' : Disk) (u' : IsUpdated host generate_keys p d r' d')
    → r'.keys ≡ r.keys
    → u'.update.changed ≡ false
    → IsRepeated host r r' d d'
unfolding IsSaved
repeated host generate_keys p r r' d d' u' keys unchanged = record {
  keys = keys;
  unchanged = u'.changed ∙ unchanged;
  text = u'.original;
  untouched =
      subst (λ b. IsSaved b u'.original u'.update.contents (d r'.target_path) (d' r'.target_path))
        unchanged u'.saved;
  rest = u'.rest;
}

-- Two runs of `updateWalletEnv` that return, the second on the disk that the first left and on the same
-- target, with a generator that answers no keys when none are asked for. Whatever calls fail in either, the
-- second answers the keys of the first and that nothing changed; the target is then the very file that it
-- found, with its text and with mode 600, and every other path but siblings of the target has the entry that
-- it had.
pub update_wallet_env-IsRepeatable :
    (host host' : Host) (generate_keys : ℕ → Result (List String)) (p p' : FilePath)
    (m m' : Machine) {r r' : WalletEnvUpdateResult} {n n' : Machine}
    → generate_keys 0 ≡ ok []
    → update_wallet_env host generate_keys p m ≡ (ok r, n)
    → m'.disk ≡ n.disk
    → update_wallet_env host' generate_keys p' m' ≡ (ok r', n')
    → r'.target_path ≡ r.target_path
    → IsRepeated host' r r' n.disk n'.disk
update_wallet_env-IsRepeatable host host' generate_keys p p' m m' {r} {r'} {n} {n'} none_made run
      same run' target =
    let u = returned host generate_keys p m run in
    let u' : IsUpdated host' generate_keys p' n.disk r' n'.disk =
      subst (λ (d : Disk). IsUpdated host' generate_keys p' d r' n'.disk) same
        (returned host' generate_keys p' m' run') in
    let after =
      repeats generate_keys none_made u.update u.update.changed u.original u.existing
        (m.disk r.target_path) (n.disk r.target_path) refl u.decided u.read u.saved in
    let at : original_of (n.disk r.target_path) ≡ some (u'.original, u'.existing) =
      ap original_of (sym (ap (λ t. n.disk t) target)) ∙ u'.read in
    let (keys, unchanged) =
      same_answer generate_keys none_made u.update _ u'.original u'.existing u'.update after at
        u'.decided in
    repeated host' generate_keys p' r r' n.disk n'.disk u' (u'.keys ∙ keys ∙ sym u.keys) unchanged
