-- ===== src/EnvFile/Kept.antt =====
-- What `prepareTarget` of scripts/lib/env-persistence.ts leaves of a disk: files beside the target
-- that bear its own names come and go, and the target may change in a way that is followed.
use cr3d_x.Base.{ℕ, String, ◌≡◌, sym, ◌∙◌, Bool, true, false, Option, subst}
use cr3d_x.Types.Port.{Result, ok, threw}
use cr3d_x.EnvFile.Machine.{
  FilePath, same_path, DiskNode, Disk, Machine, Host, Io, pure, throw, try_catch, ◌>>=◌, when,
  require, put_node, os, sync, sibling,
}
use cr3d_x.EnvFile.Triples.{
  Post, Triple, Triple-throw, Triple-os, Triple-weaken, Triple-bind, Triple-try_catch, Triple-pure,
  Triple-require,
}
use cr3d_x.EnvFile.Nodes.{put_node-elsewhere, sibling-IsApart}

-- A path that is no sibling with a name of the component.
unfoldable pub IsForeign : Host → FilePath → FilePath → Type 0
IsForeign host target q =
    (purpose : String) (n : ℕ) → same_path q (sibling host target purpose n) ≡ false

-- The target has an entry with `P`, and every other path but siblings has the entry that it had.
unfoldable pub IsKept : Host → FilePath → (Option DiskNode → Type 0) → Disk → Disk → Type 0
IsKept host target P d0 d =
    P (d target)
    × ((q : FilePath) → IsForeign host target q → same_path q target ≡ false → d q ≡ d0 q)

abbrev pub Always : Disk → Type 0
Always d = Unit

pub IsKept-map :
    (host : Host) (target : FilePath) (d0 : Disk) {P Q : Option DiskNode → Type 0} (d : Disk)
    → ((o : Option DiskNode) → P o → Q o)
    → IsKept host target P d0 d
    → IsKept host target Q d0 d
unfolding IsKept
IsKept-map host target d0 d f k = (f (d target) k.0, k.1)

module _ (host : Host) (target : FilePath) (P : Option DiskNode → Type 0) (d0 : Disk) where
  abbrev K : Disk → Type 0
  K = IsKept host target P d0

  unfoldable pub Keeps : {A : Type 0} → Io A → Type 0
  Keeps io = Triple Always K io (λ _ d. K d) K

  -- A change of a sibling.
  pub put_node-IsKept :
      (p : FilePath) (entry : Option DiskNode) (m : Machine)
      → ((q : FilePath) → IsForeign host target q → same_path q p ≡ false)
      → K m.disk
      → K (put_node p entry m).disk
  unfolding IsKept IsForeign
  put_node-IsKept p entry m own k = (
    subst P (sym (put_node-elsewhere p target entry m (own target (sibling-IsApart host target))))
        k.0,
    λ q foreign other. put_node-elsewhere p q entry m (own q foreign) ∙ k.1 q foreign other,
  )

  pub call-Keeps : {A : Type 0} (io : Io A) → Keeps io → Keeps (os host io)
  unfolding Keeps
  call-Keeps io t = Triple-os host io (λ d k. k) (λ d k. tt) t

  pub look-Keeps : {A : Type 0} (g : Machine → Result A) → Keeps (os host (λ m. (g m, m)))
  unfolding Keeps
  look-Keeps g = call-Keeps _ (record { at = λ m i k. (i, looked (g m) m.disk k) })
    where
      looked : {A : Type 0} (r : Result A) (d : Disk) → K d → Post (λ _ d. K d) K r d
      looked (ok a) d k = k
      looked (threw message) d k = k

  pub bind-Keeps :
      {A B : Type 0} (io : Io A) (f : A → Io B)
      → Keeps io
      → ((a : A) → Keeps (f a))
      → Keeps (io >>= f)
  unfolding Keeps
  bind-Keeps io f t tf = Triple-bind io f t tf

  pub try_catch-Keeps :
      {A : Type 0} (io : Io A) (h : String → Io A)
      → Keeps io
      → ((s : String) → Keeps (h s))
      → Keeps (try_catch io h)
  unfolding Keeps
  try_catch-Keeps io h t th = Triple-try_catch io h t th

  pub throw-Keeps : (A : Type 0) (message : String) → Keeps (throw {A = A} message)
  unfolding Keeps
  throw-Keeps A message = Triple-throw message (λ d k. k)

  pub pure-Keeps : {A : Type 0} (a : A) → Keeps (pure a)
  unfolding Keeps
  pure-Keeps a = Triple-pure a

  pub require-Keeps : (test : Bool) (message : String) → Keeps (require test message)
  unfolding Keeps
  require-Keeps test message =
      Triple-weaken _ (λ d k. k) (λ a d k. k.0) (Triple-require test message (λ d k. k))

  pub when-Keeps : (test : Bool) (io : Io Unit) → Keeps io → Keeps (when test io)
  unfolding when
  when-Keeps true io t = t
  when-Keeps false io t = pure-Keeps tt

  pub sync-Keeps : Keeps (sync host)
  unfolding sync
  sync-Keeps = look-Keeps (λ m. ok tt)
