-- ===== src/EnvFile/Tightened.antt =====
-- scripts/lib/env-persistence.ts `assertOwnedRegularFile` makes the target private, and changes nothing else.
use cr3d_x.Base.{ℕ, ◌≡◌, refl, ap, sym, ◌∙◌, false, Option, none, some, ◌⊎◌, inl, inr, All}
use cr3d_x.EnvFile.Machine.{
  FilePath, DiskNode, file, link, special, Disk, Machine, Host, put_node, with_mode, set_mode_at,
  set_mode, Io, resolve_from, resolve_links, chmod, stat_at,
}
use cr3d_x.EnvFile.Replace.{private_bits, private_mode}
use cr3d_x.EnvFile.Prepare.{assert_owned_regular_file}
use cr3d_x.EnvFile.Triples.{Leaves, Triple, Triple-os, Triple-weaken_throw, Triple-bind}
use cr3d_x.EnvFile.Nodes.{put_node-elsewhere, put_node-at}
use cr3d_x.EnvFile.Kept.{
  IsKept, IsKept-map, Always, Keeps, look-Keeps, bind-Keeps, pure-Keeps, require-Keeps,
}
use cr3d_x.EnvFile.Originals.{is_followed}

-- The entry has mode 600 now and is else what it was.
unfoldable pub IsPrivately : Option DiskNode → Option DiskNode → Type 0
IsPrivately old new =
    (entry : DiskNode) × (old ≡ some entry) × (new ≡ some (with_mode private_bits entry))

-- The entry is what it was, but may have mode 600 now.
unfoldable pub IsTightened : Option DiskNode → Option DiskNode → Type 0
IsTightened old new = (new ≡ old) ⊎ IsPrivately old new

module _ (host : Host) (t : FilePath) (d0 : Disk) where
  abbrev pub Same : Disk → Type 0
  Same = IsKept host t (λ o. o ≡ d0 t) d0

  abbrev pub Private : Disk → Type 0
  Private = IsKept host t (IsPrivately (d0 t)) d0

  abbrev pub Tightened : Disk → Type 0
  Tightened = IsKept host t (IsTightened (d0 t)) d0

  pub same-Tightened : (d : Disk) → Same d → Tightened d
  unfolding IsTightened
  same-Tightened d k = IsKept-map host t d0 d (λ o e. inl e) k

  pub private-Tightened : (d : Disk) → Private d → Tightened d
  unfolding IsTightened
  private-Tightened d k = IsKept-map host t d0 d (λ o e. inr e) k

  set_mode_at-Leaves :
      (o : Option DiskNode) (m : Machine)
      → m.disk t ≡ o
      → All Always m.past
      → Same m.disk
      → Leaves Always (λ _ d. Private d) Tightened (set_mode_at private_bits t o m)
  unfolding set_mode_at put_node IsKept IsPrivately
  set_mode_at-Leaves none m there i k = (i, same-Tightened m.disk k)
  set_mode_at-Leaves (some entry) m there i k = (
    i,
    (
      (entry, sym k.0 ∙ there, put_node-at t _ m),
      λ q foreign other. put_node-elsewhere t q _ m other ∙ k.1 q foreign other,
    ),
  )

  set_mode-Leaves :
      (fuel : ℕ) (o : Option DiskNode) (m : Machine)
      → m.disk t ≡ o
      → is_followed o ≡ false
      → All Always m.past
      → Same m.disk
      → Leaves Always
          (λ _ d. Private d)
          Tightened
          (set_mode private_bits (resolve_from fuel m.disk t o) m)
  unfolding set_mode resolve_from is_followed
  set_mode-Leaves fuel none m there plain i k = (i, same-Tightened m.disk k)
  set_mode-Leaves fuel (some (file stat text)) m there plain i k =
      set_mode_at-Leaves (m.disk t) m refl i k
  set_mode-Leaves fuel (some (special stat)) m there plain i k =
      set_mode_at-Leaves (m.disk t) m refl i k
  set_mode-Leaves fuel (some (link next)) m there plain i k = cc

  chmod-Triple :
      is_followed (d0 t) ≡ false
      → Triple Always Same (chmod host t private_bits) (λ _ d. Private d) Tightened
  unfolding chmod resolve_links IsKept
  chmod-Triple plain =
      Triple-os host _ same-Tightened (λ d k. tt)
        (record {
          at = λ m i k. set_mode-Leaves 40 (m.disk t) m refl (ap is_followed k.0 ∙ plain) i k;
        })

  -- Where it returns, the target has mode 600, and where it throws it has the old mode or this one.
  pub assert_owned_regular_file-Triple :
      is_followed (d0 t) ≡ false
      → Triple Always Same (assert_owned_regular_file host t) (λ _ d. Private d) Tightened
  unfolding assert_owned_regular_file stat_at private_mode Keeps
  assert_owned_regular_file-Triple plain =
      Triple-bind _ _ (before (look-Keeps host t (λ o. o ≡ d0 t) d0 _)) (λ info.
        Triple-bind _ _ (before (require-Keeps host t (λ o. o ≡ d0 t) d0 _ _)) (λ _.
          Triple-bind _ _ (before (require-Keeps host t (λ o. o ≡ d0 t) d0 _ _)) (λ _.
            Triple-bind _ _
              (Triple-bind _ _ (chmod-Triple plain) (λ _. Triple-weaken_throw _ private-Tightened (
                bind-Keeps host t (IsPrivately (d0 t)) d0 _ _
                  (look-Keeps host t (IsPrivately (d0 t)) d0 _)
                  (λ info. require-Keeps host t (IsPrivately (d0 t)) d0 _ _))))
              (λ _. Triple-weaken_throw _ private-Tightened (
                bind-Keeps host t (IsPrivately (d0 t)) d0 _ _
                  (look-Keeps host t (IsPrivately (d0 t)) d0 _)
                  (λ checked. pure-Keeps host t (IsPrivately (d0 t)) d0 _))))))
    where
      before :
          {A : Type 0} {io : Io A}
          → Keeps host t (λ o. o ≡ d0 t) d0 io
          → Triple Always Same io (λ _ d. Same d) Tightened
      before {A} {io} keeps = Triple-weaken_throw io same-Tightened keeps
