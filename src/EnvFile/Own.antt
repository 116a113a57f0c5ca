-- ===== src/EnvFile/Own.antt =====
-- The calls of scripts/lib/env-persistence.ts on a path that bears a name of the component keep the rest of
-- the disk.
use cr3d_x.Base.{ℕ, String, ◌≡◌, Bool, true, false, Option, none, some, if◌then◌else◌, All}
use cr3d_x.Types.Port.{ok}
use cr3d_x.EnvFile.Machine.{
  FilePath, same_path, FileStat, DiskNode, file, link, special, Disk, Machine, Host, Io, pure,
  throw, is_missing, put_node, create_at, write_at, write_file, unlink_at, set_mode_at, set_mode,
  os, create, write, sync, chmod, stat_at, unlink, remove_if_present, sibling,
}
use cr3d_x.EnvFile.Replace.{private_bits, private_mode, fill_temporary}
use cr3d_x.EnvFile.Triples.{Leaves, Triple, Triple-os, Triple-bind}
use cr3d_x.EnvFile.Nodes.{put_node-at, resolve_links-file}
use cr3d_x.EnvFile.Kept.{
  IsForeign, IsKept, Always, Keeps, put_node-IsKept, call-Keeps, look-Keeps, bind-Keeps,
  try_catch-Keeps, throw-Keeps, pure-Keeps, require-Keeps,
}

module _ (host : Host) (target : FilePath) (P : Option DiskNode → Type 0) (d0 : Disk) where
  abbrev K : Disk → Type 0
  K = IsKept host target P d0

  abbrev KeepsIt : {A : Type 0} → Io A → Type 0
  KeepsIt io = Keeps host target P d0 io

  -- A path that bears a name of the component.
  unfoldable pub IsOwn : FilePath → Type 0
  IsOwn p = (q : FilePath) → IsForeign host target q → same_path q p ≡ false

  pub sibling-IsOwn : (purpose : String) (n : ℕ) → IsOwn (sibling host target purpose n)
  unfolding IsOwn IsForeign
  sibling-IsOwn purpose n q foreign = foreign purpose n

  module _ (p : FilePath) (own : IsOwn p) where
    pub changes : (entry : Option DiskNode) (m : Machine) → K m.disk → K (put_node p entry m).disk
    unfolding IsOwn
    changes entry m k = put_node-IsKept host target P d0 p entry m own k

    -- The path has a file.
    unfoldable pub HasFile : Disk → Type 0
    HasFile d = K d × ((stat : FileStat) × (text : String) × (d p ≡ some (file stat text)))

    held : (d : Disk) → HasFile d → K d
    unfolding HasFile
    held d h = h.0

    puts_file :
        (stat : FileStat) (text : String) (m : Machine)
        → K m.disk
        → HasFile (put_node p (some (file stat text)) m).disk
    unfolding HasFile
    puts_file stat text m k = (changes _ m k, (stat, text, put_node-at p _ m))

    -- A call that needs the file or makes it.
    call-Triple :
        {Pre : Disk → Type 0} {Q : Unit → Disk → Type 0} (io : Io Unit)
        → ((d : Disk) → Pre d → K d)
        → Triple Always Pre io Q K
        → Triple Always Pre (os host io) Q K
    call-Triple io weaker t = Triple-os host io weaker (λ d k. tt) t

    create_at-Leaves :
        (stat : FileStat) (entry : Option DiskNode) (m : Machine)
        → All Always m.past
        → K m.disk
        → Leaves Always (λ _ d. HasFile d) K (create_at stat p entry m)
    unfolding create_at put_node
    create_at-Leaves stat none m i k = (i, puts_file stat "" m k)
    create_at-Leaves stat (some entry) m i k = (i, k)

    pub create-Triple : Triple Always K (create host p) (λ _ d. HasFile d) K
    unfolding create
    create-Triple =
        call-Triple _ (λ d k. k) (record { at = λ m i k. create_at-Leaves _ (m.disk p) m i k })

    write_file-Leaves :
        (stat : FileStat) (text : String) (torn : Option String) (m : Machine) (n : ℕ)
        → All Always m.past
        → K m.disk
        → Leaves Always (λ _ d. HasFile d) K (write_file (host.written n) p stat text torn m)
    unfolding write_file put_node
    write_file-Leaves stat text none m n i k = (i, puts_file _ text m k)
    write_file-Leaves stat text (some part) m n i k = (i, changes _ m k)

    write_at-Leaves :
        (text : String) (torn : Option String) (entry : Option DiskNode) (m : Machine) (n : ℕ)
        → All Always m.past
        → K m.disk
        → Leaves Always (λ _ d. HasFile d) K (write_at (host.written n) p text torn entry m)
    unfolding write_at
    write_at-Leaves text torn none m n i k = (i, k)
    write_at-Leaves text torn (some (file stat old)) m n i k =
        write_file-Leaves stat text torn m n i k
    write_at-Leaves text torn (some (link next)) m n i k = (i, k)
    write_at-Leaves text torn (some (special stat)) m n i k = (i, k)

    pub fill_temporary-Triple :
        (text : String) → Triple Always HasFile (fill_temporary host p text) (λ _ d. HasFile d) K
    unfolding fill_temporary write sync
    fill_temporary-Triple text =
        Triple-bind _ _
          (call-Triple _ held (record {
            at = λ m i h.
                write_at-Leaves text (host.torn m.calls) (m.disk p) m m.calls i (held m.disk h);
          }))
          (λ _. Triple-bind _ _ syncs (λ _. syncs))
      where
        syncs : Triple Always HasFile (os host (λ m. (ok tt, m))) (λ _ d. HasFile d) K
        syncs = call-Triple _ held (record { at = λ m i h. (i, h) })

    set_mode_at-Leaves :
        (mode : ℕ) (entry : Option DiskNode) (m : Machine)
        → All Always m.past
        → K m.disk
        → Leaves Always (λ _ d. K d) K (set_mode_at mode p entry m)
    unfolding set_mode_at put_node
    set_mode_at-Leaves mode none m i k = (i, k)
    set_mode_at-Leaves mode (some entry) m i k = (i, changes _ m k)

    -- The mode of the file itself is set, since a file is no link.
    pub private_mode-Triple : Triple Always HasFile (private_mode host p) (λ _ d. K d) K
    unfolding private_mode chmod stat_at Keeps set_mode HasFile
    private_mode-Triple =
        Triple-bind _ _
          (call-Triple _ held (record {
            at = λ m i (k, (stat, text, there)).
                rw (resolve_links-file m.disk p stat text there)
                  (set_mode_at-Leaves private_bits (m.disk p) m i k);
          }))
          (λ _.
            bind-Keeps host target P d0 _ _ (look-Keeps host target P d0 _)
              (λ info. require-Keeps host target P d0 _ _))

    unlink_at-Leaves :
        (entry : Option DiskNode) (m : Machine)
        → All Always m.past
        → K m.disk
        → Leaves Always (λ _ d. K d) K (unlink_at p entry m)
    unfolding unlink_at put_node
    unlink_at-Leaves none m i k = (i, k)
    unlink_at-Leaves (some entry) m i k = (i, changes none m k)

    pub remove_if_present-Keeps : KeepsIt (remove_if_present host p)
    unfolding remove_if_present unlink Keeps
    remove_if_present-Keeps =
        try_catch-Keeps host target P d0 _ _
          (call-Keeps host target P d0 _
            (record { at = λ m i k. unlink_at-Leaves (m.disk p) m i k }))
          (λ message. or_throws message (is_missing message))
      where
        or_throws :
            (message : String) (test : Bool) → KeepsIt (if test then pure tt else throw message)
        or_throws message true = pure-Keeps host target P d0 tt
        or_throws message false = throw-Keeps host target P d0 Unit message
