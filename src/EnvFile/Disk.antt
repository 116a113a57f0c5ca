-- ===== src/EnvFile/Disk.antt =====
-- The disk that scripts/lib/env-persistence.ts and `atomicWriteJson` of worker/state.ts work on, on a POSIX
-- system, and actions on it.
use cr3d_x.Base.{ℕ, suc, String, str_eq, Bool, true, false, ◌&&◌, Option, List, ◌∷◌}
use cr3d_x.Types.Port.{Result, ok, threw}

pub record FilePath : Type 0 where
  pub directory : String
  pub name : String

unfoldable pub same_path : FilePath → FilePath → Bool
same_path p q = str_eq p.directory q.directory && str_eq p.name q.name

-- What `statSync` tells; `mode` has the permission bits.
pub record FileStat : Type 0 where
  pub user : ℕ
  pub mode : ℕ
  pub device : ℕ
  pub inode : ℕ
  pub size : ℕ
  pub modified : ℕ

-- `info.isFile()`, and the rest of it
pub record FileInfo : Type 0 where
  pub is_file : Bool
  pub stat : FileStat

pub data DiskNode : Type 0 where
  file : FileStat → String → DiskNode
  link : FilePath → DiskNode
  special : FileStat → DiskNode

pub record ParentDirectory : Type 0 where
  pub is_directory : Bool
  pub stat : FileStat

abbrev pub Disk : Type 0
Disk = FilePath → Option DiskNode

pub record Machine : Type 0 where
  pub disk : Disk
  pub parents : String → Option ParentDirectory
  pub calls : ℕ
  pub past : List Disk

-- The machine in a call: `past` has the disk that each call began with, newest first.
unfoldable pub called : Machine → Machine
called m = record m { calls = suc m.calls; past = m.disk ∷ m.past }

-- How a call fails by itself. That a path is missing is no such failure: the disk says it.
pub data DiskFault : Type 0 where
  io_error : DiskFault
  denied : DiskFault
  no_space : DiskFault
  read_only : DiskFault

unfoldable pub fault_code : DiskFault → String
fault_code io_error = "EIO"
fault_code denied = "EACCES"
fault_code no_space = "ENOSPC"
fault_code read_only = "EROFS"

-- `fault` says which calls fail by themselves, `torn` which writes fail on the way and what they leave in
-- the file; `created` is what a new file has; `unique` makes the names of siblings.
pub record Host : Type 0 where
  pub fault : ℕ → Option DiskFault
  pub torn : ℕ → Option String
  pub created : ℕ → FileStat
  pub written : ℕ → String → FileStat → FileStat
  pub unique : ℕ → String
  pub user : Option ℕ

abbrev pub Io : Type 0 → Type 0
Io A = Machine → Result A × Machine

module _ {A : Type 0} where
  unfoldable pub pure : A → Io A
  pure a m = (ok a, m)

  unfoldable pub throw : String → Io A
  throw message m = (threw message, m)

  abbrev pub recover : Result A → (String → Io A) → Io A
  recover (ok a) h m = (ok a, m)
  recover (threw message) h m = h message m

  -- try { io } catch (error) { h(error) }
  unfoldable pub try_catch : Io A → (String → Io A) → Io A
  try_catch io h m = let (r, m') = io m in recover r h m'

module _ {A B : Type 0} where
  abbrev pub go_on : Result A → (A → Io B) → Io B
  go_on (ok a) f m = f a m
  go_on (threw message) f m = (threw message, m)

  infixl 10 ◌>>=◌ ◌>>◌
  unfoldable pub ◌>>=◌ : Io A → (A → Io B) → Io B
  ◌>>=◌ io f m = let (r, m') = io m in go_on r f m'

  abbrev pub ◌>>◌ : Io A → Io B → Io B
  io >> next = io >>= λ _. next

unfoldable pub lift : {A : Type 0} → Result A → Io A
lift r m = (r, m)

unfoldable pub when : Bool → Io Unit → Io Unit
when true io = io
when false io = pure tt

-- if (!test) throw new Error(message)
unfoldable pub require : Bool → String → Io Unit
require true message = pure tt
require false message = throw message

-- The code of the error is ENOENT.
abbrev pub missing : String
missing = "ENOENT"

unfoldable pub is_missing : String → Bool
is_missing message = str_eq message missing
