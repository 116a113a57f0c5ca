-- ===== src/EnvFile/Temporary.antt =====
-- What each step of `atomicReplace` of scripts/lib/env-persistence.ts does to the temporary file, and that
-- it touches nothing else.
use cr3d_x.Base.{
  ℕ, ◌%◌, String, ◌≡◌, ◌∙◌, Bool, true, false, Option, none, some, All, if◌then◌else◌,
}
use cr3d_x.EnvFile.Machine.{
  FilePath, same_path, FileStat, DiskNode, file, link, special, Disk, Machine, Host, Io, pure,
  throw, when, is_missing, put_node, create_at, write_at, write_file, unlink_at, create, write,
  sync, unlink, remove_if_present,
}
use cr3d_x.EnvFile.Replace.{private_bits, clean_up, or_clean_up, fill_temporary}
use cr3d_x.EnvFile.Triples.{
  Leaves, Triple, Triple-throw, Triple-os, Triple-bind, Triple-try_catch, Triple-pure,
}
use cr3d_x.EnvFile.Nodes.{put_node-elsewhere, put_node-at}

-- Every path but the temporary one has the entry that it had.
unfoldable pub IsElsewhere : FilePath → Disk → Disk → Type 0
IsElsewhere temp d0 d = (q : FilePath) → same_path q temp ≡ false → d q ≡ d0 q

-- A file with these contents that only its owner reads and writes.
unfoldable pub IsPrivateFile : String → Option DiskNode → Type 0
IsPrivateFile contents entry =
    (stat : FileStat) × (entry ≡ some (file stat contents)) × (stat.mode % 512 ≡ private_bits)

unfoldable pub IsCreated : FilePath → Disk → Disk → Type 0
IsCreated temp d0 d =
    IsElsewhere temp d0 d × ((stat : FileStat) × (text : String) × (d temp ≡ some (file stat text)))

unfoldable pub IsFilled : FilePath → String → Disk → Disk → Type 0
IsFilled temp contents d0 d =
    IsElsewhere temp d0 d × ((stat : FileStat) × (d temp ≡ some (file stat contents)))

unfoldable pub IsReady : FilePath → String → Disk → Disk → Type 0
IsReady temp contents d0 d = IsElsewhere temp d0 d × IsPrivateFile contents (d temp)

pub put_node-IsElsewhere :
    (temp : FilePath) (d0 : Disk) (entry : Option DiskNode) (m : Machine)
    → IsElsewhere temp d0 m.disk
    → IsElsewhere temp d0 (put_node temp entry m).disk
unfolding IsElsewhere
put_node-IsElsewhere temp d0 entry m same q apart =
    put_node-elsewhere temp q entry m apart ∙ same q apart

module _ (host : Host) (temp : FilePath) (contents : String) (d0 : Disk) {I : Disk → Type 0}
    (keeps : (d : Disk) → IsElsewhere temp d0 d → I d) where
  abbrev A : Disk → Type 0
  A d = IsElsewhere temp d0 d

  created : (d : Disk) → IsCreated temp d0 d → A d
  unfolding IsCreated
  created d f = f.0

  pub filled : (d : Disk) → IsFilled temp contents d0 d → A d
  unfolding IsFilled
  filled d f = f.0

  create_at-Leaves :
      (stat : FileStat) (entry : Option DiskNode) (m : Machine)
      → All I m.past
      → A m.disk
      → Leaves I (λ _ d. IsCreated temp d0 d) A (create_at stat temp entry m)
  unfolding create_at put_node IsCreated
  create_at-Leaves stat (some entry) m i a = (i, a)
  create_at-Leaves stat none m i a =
      (i, (put_node-IsElsewhere temp d0 _ m a, (stat, "", put_node-at temp _ m)))

  pub create-Triple : Triple I A (create host temp) (λ _ d. IsCreated temp d0 d) A
  unfolding create
  create-Triple =
      Triple-os host _ (λ d a. a) keeps
        (record { at = λ m i a. create_at-Leaves _ (m.disk temp) m i a })

  write_file-Leaves :
      (stat : FileStat) (torn : Option String) (m : Machine) (n : ℕ)
      → All I m.past
      → A m.disk
      → Leaves I
          (λ _ d. IsFilled temp contents d0 d)
          A
          (write_file (host.written n) temp stat contents torn m)
  unfolding write_file put_node IsFilled
  write_file-Leaves stat none m n i a = (
    i,
    (put_node-IsElsewhere temp d0 _ m a, (host.written n contents stat, put_node-at temp _ m)),
  )
  write_file-Leaves stat (some part) m n i a = (i, put_node-IsElsewhere temp d0 _ m a)

  write_at-Leaves :
      (torn : Option String) (entry : Option DiskNode) (m : Machine) (n : ℕ)
      → All I m.past
      → A m.disk
      → Leaves I
          (λ _ d. IsFilled temp contents d0 d)
          A
          (write_at (host.written n) temp contents torn entry m)
  unfolding write_at
  write_at-Leaves torn none m n i a = (i, a)
  write_at-Leaves torn (some (file stat old)) m n i a = write_file-Leaves stat torn m n i a
  write_at-Leaves torn (some (link target)) m n i a = (i, a)
  write_at-Leaves torn (some (special stat)) m n i a = (i, a)

  pub write-Triple :
      Triple I (IsCreated temp d0) (write host temp contents) (λ _ d. IsFilled temp contents d0 d) A
  unfolding write
  write-Triple =
      Triple-os host _ created (λ d f. keeps d (created d f))
        (record {
          at = λ m i f.
              write_at-Leaves (host.torn m.calls) (m.disk temp) m m.calls i (created m.disk f);
        })

  pub sync-Triple :
      {P : Disk → Type 0} → ((d : Disk) → P d → A d) → Triple I P (sync host) (λ _ d. P d) A
  unfolding sync
  sync-Triple weaker =
      Triple-os host _ weaker (λ d p. keeps d (weaker d p)) (record { at = λ m i p. (i, p) })

  unlink_at-Leaves :
      (entry : Option DiskNode) (m : Machine)
      → All I m.past
      → A m.disk
      → Leaves I (λ _ d. A d) A (unlink_at temp entry m)
  unfolding unlink_at put_node
  unlink_at-Leaves none m i a = (i, a)
  unlink_at-Leaves (some entry) m i a = (i, put_node-IsElsewhere temp d0 none m a)

  pub remove_if_present-Triple : Triple I A (remove_if_present host temp) (λ _ d. A d) A
  unfolding remove_if_present unlink
  remove_if_present-Triple =
      Triple-try_catch _ _
        (Triple-os host _ (λ d a. a) keeps
          (record { at = λ m i a. unlink_at-Leaves (m.disk temp) m i a }))
        (λ message. or_throws message (is_missing message))
    where
      or_throws :
          (message : String) (test : Bool)
          → Triple I A (if test then pure tt else throw message) (λ _ d. A d) A
      or_throws message true = Triple-pure tt
      or_throws message false = Triple-throw message (λ d a. a)

  pub clean_up-Triple :
      {Q : Unit → Disk → Type 0} (fd_open : Bool) (message : String)
      → Triple I A (clean_up host fd_open temp message) Q A
  unfolding clean_up when
  clean_up-Triple fd_open message =
      Triple-bind _ _ (closes fd_open)
        (λ _. Triple-bind _ _ remove_if_present-Triple (λ _. Triple-throw message (λ d a. a)))
    where
      closes : (is_open : Bool) → Triple I A (when is_open (sync host)) (λ _ d. A d) A
      closes true = sync-Triple (λ d a. a)
      closes false = Triple-pure tt

  pub or_clean_up-Triple :
      {P : Disk → Type 0} {Q : Unit → Disk → Type 0} (fd_open : Bool) (io : Io Unit)
      → Triple I P io Q A
      → Triple I P (or_clean_up host fd_open temp io) Q A
  unfolding or_clean_up
  or_clean_up-Triple fd_open io t =
      Triple-try_catch io _ t (λ message. clean_up-Triple fd_open message)

  pub fill_temporary-Triple :
      Triple I
        (IsCreated temp d0)
        (fill_temporary host temp contents)
        (λ _ d. IsFilled temp contents d0 d)
        A
  unfolding fill_temporary
  fill_temporary-Triple =
      Triple-bind _ _ write-Triple
        (λ _. Triple-bind _ _ (sync-Triple filled) (λ _. sync-Triple filled))
