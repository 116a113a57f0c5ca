-- ===== src/EnvFile/Saving.antt =====
-- scripts/lib/env-persistence.ts: what `updateWalletEnv` saves of a decision, where there is a change.
use cr3d_x.Base.{
  ℕ, String, ◌≡◌, refl, sym, ap, ◌∙◌, subst, Bool, true, false, ◌||◌, Option, some, List, ◌-◌, ◌&&◌,
  ◌==◌, inl, inr, ltb, length,
}
use cr3d_x.Types.Port.{Result, ok, threw}
use cr3d_x.Types.Fallible.{guard, map_all, bind-eq-ok, ok-eq}
use cr3d_x.EnvFile.Machine.{
  FilePath, same_path, FileStat, DiskNode, file, Disk, Machine, Host, pure, when, with_mode,
}
use cr3d_x.EnvFile.Replace.{private_bits, PreparedTarget, atomic_replace}
use cr3d_x.EnvFile.Prepare.{existed}
use cr3d_x.EnvFile.Text.{read_key}
use cr3d_x.EnvFile.Update.{
  variables, bad_keys, assert_distinct, present_keys, fill_keys, all_private, check_present,
  WalletUpdate, accept_keys, complete_keys, decide,
}
use cr3d_x.EnvFile.Triples.{Leaves, Triple}
use cr3d_x.EnvFile.Nodes.{sibling-IsApart}
use cr3d_x.EnvFile.Temporary.{IsElsewhere, IsPrivateFile}
use cr3d_x.EnvFile.Kept.{IsForeign, IsKept, IsKept-map, Always}
use cr3d_x.EnvFile.Tightened.{IsPrivately, IsTightened, Tightened}
use cr3d_x.EnvFile.Originals.{original_of-file}
use cr3d_x.EnvFile.Atomic.{IsReplaced, temporary_of, atomic_replace-Leaves}
use cr3d_x.EnvFile.Prepared.{original_of, IsChecked}

-- The file has mode 600 now and is else the very file that it was, with its text.
unfoldable pub IsUntouched : String → Option DiskNode → Option DiskNode → Type 0
IsUntouched text old new =
    (stat : FileStat) × (old ≡ some (file stat text))
    × (new ≡ some (file (record stat { mode = private_bits }) text))

-- The target after an update: the new file where there was a change, and the old one where there was none.
unfoldable pub IsSaved : Bool → String → String → Option DiskNode → Option DiskNode → Type 0
IsSaved true original contents old new = IsPrivateFile contents new
IsSaved false original contents old new = IsUntouched original old new

-- A target that was checked is untouched, or is still to be changed.
untouched :
    (old new : Option DiskNode) (text : String)
    → IsPrivately old new
    → original_of old ≡ some (text, true)
    → IsUntouched text old new
unfolding IsPrivately IsUntouched with_mode
untouched old new text (entry, was, is) read =
    let (stat, there) = original_of-file old text read in
    let same : entry ≡ file stat text = cc (was, there) in
    (stat, there, is ∙ ap (λ e. some (with_mode private_bits e)) same)

-- An update of a file that does not exist is a change.
accept_keys-missing :
    (original : String) (existing : List (Option String)) (generated : List String)
    {u : WalletUpdate}
    → accept_keys original false existing generated ≡ ok u
    → u.changed ≡ true
unfolding accept_keys
accept_keys-missing original existing generated {u} e =
    let (u1, guarded, e1) =
      bind-eq-ok
        (guard
          ((length generated == length variables - length (present_keys existing))
            && all_private generated)
          bad_keys)
        _ e in
    let (u2, distinct, e2) = bind-eq-ok (assert_distinct (fill_keys existing generated)) _ e1 in
    sym (ap (λ (v : WalletUpdate). v.changed) (ok-eq e2)) ∙ always_true (ltb 0 (length generated))
  where
    always_true : (b : Bool) → (b || true) ≡ true
    always_true true = refl
    always_true false = refl

decide-missing :
    (generate_keys : ℕ → Result (List String)) (original : String) {u : WalletUpdate}
    → decide generate_keys original false ≡ ok u
    → u.changed ≡ true
unfolding decide complete_keys
decide-missing generate_keys original e =
    let (existing, reads, e1) = bind-eq-ok (map_all (read_key original) variables) _ e in
    let (u1, checked, e2) = bind-eq-ok (check_present (present_keys existing)) _ e1 in
    let (generated, made, e3) =
      bind-eq-ok (generate_keys (length variables - length (present_keys existing))) _ e2 in
    accept_keys-missing original existing generated e3

pub changed_or_existed :
    (generate_keys : ℕ → Result (List String)) (existing : Bool) (original : String)
    (u : WalletUpdate)
    → decide generate_keys original existing ≡ ok u
    → u.changed ≡ false
    → existing ≡ true
changed_or_existed generate_keys true original u decided unchanged = refl
changed_or_existed generate_keys false original u decided unchanged =
    cc (decide-missing generate_keys original decided, unchanged)

module _ (host : Host) (d0 : Disk) (target : PreparedTarget) where
  abbrev pub t : FilePath
  t = target.target_path

  abbrev pub Checked : Disk → Type 0
  Checked = IsKept host t (IsChecked (existed target) (d0 t)) d0

  unfoldable pub IsPut : Bool → String → Disk → Type 0
  IsPut changed contents d =
      IsSaved changed target.original contents (d0 t) (d t)
      × ((q : FilePath) → IsForeign host t q → same_path q t ≡ false → d q ≡ d0 q)

  pub checked-tightened : (d : Disk) → Checked d → Tightened host t d0 d
  unfolding IsChecked IsTightened
  checked-tightened d k = IsKept-map host t d0 d (loosen (existed target)) k
    where
      loosen : (b : Bool) (o : Option DiskNode) → IsChecked b (d0 t) o → IsTightened (d0 t) o
      loosen true o c = inr c
      loosen false o c = inl c

  replaced :
      (contents : String) (m : Machine) (d : Disk)
      → Checked m.disk
      → IsReplaced t (temporary_of host target m) contents m.disk d
      → IsPut true contents d
  unfolding IsPut IsSaved IsKept IsForeign
  replaced contents m d k r = (
    r.in_place,
    λ q foreign other. r.rest q other (foreign "write" m.calls) ∙ k.1 q foreign other,
  )

  elsewhere :
      (m : Machine) (d : Disk)
      → Checked m.disk
      → IsElsewhere (temporary_of host target m) m.disk d
      → Checked d
  unfolding IsKept IsElsewhere IsForeign
  elsewhere m d k e = (
    subst (IsChecked (existed target) (d0 t)) (sym (e t (sibling-IsApart host t "write" m.calls)))
        k.0,
    λ q foreign other. e q (foreign "write" m.calls) ∙ k.1 q foreign other,
  )

  kept :
      (contents : String) (d : Disk)
      → existed target ≡ true
      → original_of (d0 t) ≡ some (target.original, existed target)
      → Checked d
      → IsPut false contents d
  unfolding IsPut IsSaved IsKept IsChecked
  kept contents d there read k = (
    untouched (d0 t) (d t) target.original (subst (λ b. IsChecked b (d0 t) (d t)) there k.0)
        (read ∙ ap (λ b. some (target.original, b)) there),
    k.1,
  )

  pub save-Triple :
      (changed : Bool) (contents : String)
      → (changed ≡ false → existed target ≡ true)
      → original_of (d0 t) ≡ some (target.original, existed target)
      → Triple Always Checked
          (when changed (atomic_replace host target contents))
          (λ _ d. IsPut changed contents d)
          (Tightened host t d0)
  unfolding when pure
  save-Triple false contents there read = record {
    at = λ m i k. (i, kept contents m.disk (there refl) read k);
  }
  save-Triple true contents there read = record {
    at = λ m i k.
        after m k (atomic_replace host target contents m).0
          (atomic_replace host target contents m).1
          (atomic_replace-Leaves host target contents m (λ d e. tt) i);
  }
    where
      after :
          (m : Machine)
          → Checked m.disk
          → (r : Result Unit) (m' : Machine)
          → Leaves Always
              (λ _ d. IsReplaced t (temporary_of host target m) contents m.disk d)
              (IsElsewhere (temporary_of host target m) m.disk)
              (r, m')
          → Leaves Always (λ _ d. IsPut true contents d) (Tightened host t d0) (r, m')
      after m k (ok done) m' (i, r) = (i, replaced contents m m'.disk k r)
      after m k (threw message) m' (i, e) = (i, checked-tightened m'.disk (elsewhere m m'.disk k e))
