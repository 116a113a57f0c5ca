-- ===== src/Examples/Writing.antt =====
-- A write of the state file on a disk whose seventh call fails, which is a synchronization of the directory.
use cr3d_x.Base.{◌<>◌, ◌==◌, if◌then◌else◌, refl, none, some, [], decimal}
use cr3d_x.EnvFile.Machine.{FilePath, same_path, FileStat, file, Machine, Host, io_error}
use cr3d_x.EnvFile.Triples.{Leaves}
use cr3d_x.State.Writing.{
  temporary_path, atomic_write_json, IsOldOrWhole, IsWritten, atomic_write_json-IsAtomic,
}

abbrev state_path : FilePath
state_path = record { directory = "/var/lib/cr3dx"; name = "worker-state.json" }

abbrev plain_stat : FileStat
plain_stat = record { user = 7; mode = 0o600; device = 1; inode = 2; size = 2; modified = 5 }

abbrev state_machine : Machine
state_machine = record {
  disk = λ q. if same_path q state_path then some (file plain_stat "{}\n") else none;
  parents = λ directory. none;
  calls = 0;
  past = [];
}

abbrev failing_host : Host
failing_host = record {
  fault = λ n. if n == 6 then some io_error else none;
  torn = λ n. none;
  created = λ n. record plain_stat { inode = n; size = 0 };
  written = λ n text stat. record stat { modified = n };
  unique = λ n. "unused";
  user = some 7;
}

abbrev state_temporary : FilePath
state_temporary = record { directory = "/var/lib/cr3dx"; name = ".tmp-41-1000-0c9d7f3a" }

atomic_write_json-IsAtomic_example :
    Leaves
      (IsOldOrWhole state_path state_temporary ("[1]" <> "\n") state_machine.disk)
      (λ _ d. IsWritten state_path state_temporary ("[1]" <> "\n") state_machine.disk d)
      (IsOldOrWhole state_path state_temporary ("[1]" <> "\n") state_machine.disk)
      (atomic_write_json failing_host (λ path. "0c9d7f3a") 41 1000 state_path "[1]" state_machine)
unfolding temporary_path same_path decimal
atomic_write_json-IsAtomic_example =
    atomic_write_json-IsAtomic failing_host (λ path. "0c9d7f3a") 41 1000 state_path "[1]"
      state_machine refl refl refl
