-- ===== src/EnvFile/Ready.antt =====
-- The mode of the temporary file of `atomicReplace` (scripts/lib/env-persistence.ts): `privateMode` sets it
-- and looks at it again.
use cr3d_x.Base.{ℕ, ◌%◌, String, ◌≡◌, sym, ap, ◌∙◌, true, Option, some, ◌==◌, All, arith}
use cr3d_x.Types.Port.{ok, threw}
use cr3d_x.EnvFile.Machine.{
  FilePath, FileStat, FileInfo, DiskNode, file, Disk, Machine, Host, put_node, set_mode_at,
  set_mode, with_mode, resolve_links, node_info, node_at, chmod, stat_at,
}
use cr3d_x.EnvFile.Replace.{private_bits, private_mode}
use cr3d_x.EnvFile.Triples.{
  Leaves, Triple, Triple-os, Triple-weaken, Triple-bind, Triple-look, Triple-require,
}
use cr3d_x.EnvFile.Temporary.{IsElsewhere, IsPrivateFile, IsFilled, IsReady, put_node-IsElsewhere}
use cr3d_x.EnvFile.Nodes.{put_node-at, resolve_links-file, node_info-file}

module _ (host : Host) (temp : FilePath) (contents : String) (d0 : Disk) {I : Disk → Type 0}
    (keeps : (d : Disk) → IsElsewhere temp d0 d → I d) where
  abbrev A : Disk → Type 0
  A d = IsElsewhere temp d0 d

  filled : (d : Disk) → IsFilled temp contents d0 d → A d
  unfolding IsFilled
  filled d f = f.0

  set_mode_at-Leaves :
      (mode : ℕ) (entry : Option DiskNode) (m : Machine)
      → ((stat : FileStat) × (entry ≡ some (file stat contents)))
      → All I m.past
      → A m.disk
      → Leaves I (λ _ d. IsFilled temp contents d0 d) A (set_mode_at mode temp entry m)
  unfolding set_mode_at put_node IsFilled with_mode
  set_mode_at-Leaves mode entry m (stat, there) i a =
      rw there (
        i,
        (put_node-IsElsewhere temp d0 _ m a, (record stat { mode = mode }, put_node-at temp _ m)),
      )

  set_mode-Leaves :
      (mode : ℕ) (m : Machine)
      → All I m.past
      → IsFilled temp contents d0 m.disk
      → Leaves I
          (λ _ d. IsFilled temp contents d0 d)
          A
          (set_mode mode (resolve_links m.disk temp) m)
  unfolding set_mode IsFilled
  set_mode-Leaves mode m i (a, (stat, there)) =
      rw (resolve_links-file m.disk temp stat contents there)
        (set_mode_at-Leaves mode (m.disk temp) m (stat, there) i a)

  chmod-Triple :
      (mode : ℕ)
      → Triple I
          (IsFilled temp contents d0)
          (chmod host temp mode)
          (λ _ d. IsFilled temp contents d0 d)
          A
  unfolding chmod
  chmod-Triple mode =
      Triple-os host _ filled (λ d f. keeps d (filled d f))
        (record { at = λ m i f. set_mode-Leaves mode m i f })

  told :
      (info : FileInfo) (d : Disk)
      → IsFilled temp contents d0 d × (node_info (node_at d (resolve_links d temp)) ≡ ok info)
      → (info.stat.mode % 512 == private_bits) ≡ true
      → IsReady temp contents d0 d
  unfolding IsFilled IsReady IsPrivateFile
  told info d ((a, (stat, there)), look) private =
      let same : stat ≡ info.stat =
        ok-stat (sym (node_info-file d temp stat contents there) ∙ look) in
      (
        a,
        (
          stat,
          there,
          ap (λ (s : FileStat). s.mode % 512) same ∙ is_same (info.stat.mode % 512) private,
        ),
      )
    where
      ok-stat :
          {s : FileStat} {i : FileInfo}
          → ok (record { is_file = true; stat = s }) ≡ ok i
          → s ≡ i.stat
      ok-stat {s} e = ap (λ r. elim r [ ok i ↦ i.stat | threw message ↦ s ]) e

      is_same : (n : ℕ) → (n == private_bits) ≡ true → n ≡ private_bits
      is_same n e = ground arith

  pub private_mode-Triple :
      Triple I
        (IsFilled temp contents d0)
        (private_mode host temp)
        (λ _ d. IsReady temp contents d0 d)
        A
  unfolding private_mode stat_at
  private_mode-Triple = Triple-bind _ _ (chmod-Triple private_bits) (λ _.
      Triple-bind _ _ stat_at-Triple (λ info.
        Triple-weaken _ (λ d f. f) (λ _ d (f, private). told info d f private)
          (Triple-require (info.stat.mode % 512 == private_bits) _ (λ d f. filled d f.0))))
    where
      stat_at-Triple :
          Triple I
            (IsFilled temp contents d0)
            (stat_at host temp)
            (λ info d.
              IsFilled temp contents d0 d
              × (node_info (node_at d (resolve_links d temp)) ≡ ok info))
            A
      stat_at-Triple = Triple-look host _ filled (λ d f. keeps d (filled d f))
