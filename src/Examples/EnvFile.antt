-- ===== src/Examples/EnvFile.antt =====
-- Runs of scripts/lib/env-persistence.ts and scripts/create-wallets.ts.
use cr3d_x.Base.{
  ℕ, String, ◌<>◌, ◌≡◌, refl, Bool, true, false, Option, none, some, [], ◌∷◌, ◌==◌, if◌then◌else◌,
  is_space, trim_start, trim_end, trim, lower, same_hex, is_hex_digit, is_hex_run, is_hex,
}
use cr3d_x.Types.Port.{Result, ok}
use cr3d_x.Types.Fallible.{map_all}
use cr3d_x.EnvFile.Text.{
  is_line_end, after_prefix, first_line, some_value, value_of, value_at, or_else, find_value,
  is_private_key, checked_key, read_key, append_entry, render_missing, render,
}
use cr3d_x.EnvFile.Update.{
  WalletUpdate, assert_distinct, present_keys, fill_keys, check_present, all_private, accept_keys,
  complete_keys, decide,
}
use cr3d_x.EnvFile.Disk.{
  FilePath, FileStat, file, DiskFault, Machine, Host, same_path, called, fault_code, pure, throw,
  try_catch, ◌>>=◌, lift, when, require, is_missing,
}
use cr3d_x.EnvFile.Machine.{
  put_node, resolve_from, resolve_links, required, node_at, node_info, file_text, with_mode,
  set_mode_at, set_mode, create_at, write_file, write_at, rename_at, unlink_at, os, lstat, stat_at,
  real_path, read_text, stat_parent, chmod, create, write, sync, rename, unlink, remove_if_present,
  sibling, unique_sibling,
}
use cr3d_x.EnvFile.Replace.{
  PreparedTarget, is_link, is_regular, has_identity, octal, mode_message, private_mode,
  still_missing, leads_to, still_leads, still_identical, still_as, assert_target_unchanged,
  clean_up, or_clean_up, fill_temporary, put_in_place, atomic_replace,
}
use cr3d_x.EnvFile.Prepare.{
  WalletEnvUpdateResult, identity_of, is_owner, no_shared_write, existed, assert_owned_regular_file,
  assert_private_parent, tidy, or_tidy, probe_rename, assert_private_atomic_filesystem, inspect,
  prepare_missing, prepare_existing, prepare_from, prepare_target, save_update, update_wallet_env,
}
use cr3d_x.EnvFile.Generate.{
  Foundry, suppressed, checked_count, checked_private_key, has_address, wallet_key, some_keys,
  generate_keys, address_lines, last_line, printed,
}
use cr3d_x.EnvFile.Stability.{IsStable, decide-IsStable}
use cr3d_x.EnvFile.Triples.{Post, Leaves}
use cr3d_x.EnvFile.Temporary.{IsElsewhere}
use cr3d_x.EnvFile.Atomic.{IsReplaced, IsOldOrNew, temporary_of, atomic_replace-IsAtomic}
use cr3d_x.EnvFile.Prepared.{IsKeptSomewhere}
use cr3d_x.EnvFile.Saved.{IsUpdated, update_wallet_env-IsUpdated}
use cr3d_x.EnvFile.Twice.{IsRepeated, update_wallet_env-IsRepeatable}

abbrev key_a : String
key_a = "0xaaaaaaaaaaaaaaaaaaaaaaaaaaaaaaaaaaaaaaaaaaaaaaaaaaaaaaaaaaaaaaaa"

abbrev key_b : String
key_b = "0xbbbbbbbbbbbbbbbbbbbbbbbbbbbbbbbbbbbbbbbbbbbbbbbbbbbbbbbbbbbbbbbb"

-- It makes one wallet, whose key is the second one.
abbrev foundry : Foundry
foundry = record {
  cast = λ count. ok "[]";
  read_json = λ stdout. ok (some (record { address = some "0xB0"; private_key = some key_b } ∷ []));
  address_of = λ key. "0xb0";
}

abbrev env_path : FilePath
env_path = record { directory = "/work"; name = ".env" }

abbrev env_stat : FileStat
env_stat = record { user = 7; mode = 0o644; device = 1; inode = 2; size = 84; modified = 5 }

abbrev env_text : String
env_text = "RPC=x\nDEPLOYER_PRIVATE_KEY=" <> (key_a <> "\n")

abbrev machine : Machine
machine = record {
  disk = λ q. if same_path q env_path then some (file env_stat env_text) else none;
  parents =
      λ directory. some (record { is_directory = true; stat = record env_stat { mode = 0o755 } });
  calls = 0;
  past = [];
}

abbrev host_with : (ℕ → Option DiskFault) → Host
host_with fault = record {
  fault = fault;
  torn = λ n. none;
  created = λ n. record env_stat { inode = n; mode = 0o600; size = 0 };
  written = λ n text stat. record stat { modified = n };
  unique = λ n. "7-uuid";
  user = some 7;
}

abbrev calm : Host
calm = host_with (λ n. none)

abbrev first_run : Result WalletEnvUpdateResult × Machine
first_run = update_wallet_env calm (generate_keys foundry) env_path machine

abbrev second_run : Result WalletEnvUpdateResult × Machine
second_run = update_wallet_env calm (generate_keys foundry) env_path first_run.1

-- What the first run answers; the second one has no change to make.
abbrev answer : Bool → WalletEnvUpdateResult
answer changed = record {
  keys = key_a ∷ key_b ∷ [];
  changed = changed;
  target_path = env_path;
  symlink = false;
}

first_run-answer : first_run ≡ (ok (answer true), first_run.1)
unfolding map_all is_space trim_start trim_end trim lower same_hex is_hex_digit is_hex_run is_hex
    is_line_end after_prefix first_line some_value value_of value_at or_else find_value
    is_private_key checked_key read_key append_entry render_missing render assert_distinct
    present_keys fill_keys check_present all_private accept_keys complete_keys decide same_path
    called fault_code pure throw try_catch ◌>>=◌ lift when require is_missing put_node resolve_from
    resolve_links required node_at node_info file_text with_mode set_mode_at set_mode create_at
    write_file write_at rename_at unlink_at os lstat stat_at real_path read_text stat_parent chmod
    create write sync rename unlink remove_if_present sibling unique_sibling is_link is_regular
    has_identity octal mode_message private_mode still_missing leads_to still_leads still_identical
    still_as assert_target_unchanged clean_up or_clean_up fill_temporary put_in_place atomic_replace
    identity_of is_owner no_shared_write existed assert_owned_regular_file assert_private_parent
    tidy or_tidy probe_rename assert_private_atomic_filesystem inspect prepare_missing
    prepare_existing prepare_from prepare_target save_update update_wallet_env suppressed
    checked_count checked_private_key has_address wallet_key some_keys generate_keys
first_run-answer = refl

second_run-answer : second_run ≡ (ok (answer false), second_run.1)
unfolding map_all is_space trim_start trim_end trim lower same_hex is_hex_digit is_hex_run is_hex
    is_line_end after_prefix first_line some_value value_of value_at or_else find_value
    is_private_key checked_key read_key append_entry render_missing render assert_distinct
    present_keys fill_keys check_present all_private accept_keys complete_keys decide same_path
    called fault_code pure throw try_catch ◌>>=◌ lift when require is_missing put_node resolve_from
    resolve_links required node_at node_info file_text with_mode set_mode_at set_mode create_at
    write_file write_at rename_at unlink_at os lstat stat_at real_path read_text stat_parent chmod
    create write sync rename unlink remove_if_present sibling unique_sibling is_link is_regular
    has_identity octal mode_message private_mode still_missing leads_to still_leads still_identical
    still_as assert_target_unchanged clean_up or_clean_up fill_temporary put_in_place atomic_replace
    identity_of is_owner no_shared_write existed assert_owned_regular_file assert_private_parent
    tidy or_tidy probe_rename assert_private_atomic_filesystem inspect prepare_missing
    prepare_existing prepare_from prepare_target save_update update_wallet_env suppressed
    checked_count checked_private_key has_address wallet_key some_keys generate_keys
second_run-answer = refl

printed-answer :
    printed foundry (answer true)
    ≡ "A (deployer/investor): 0xb0" ∷ "B (borrower/payer): 0xb0"
      ∷ "Private keys were written to the ignored .env and were not printed." ∷ []
unfolding printed address_lines last_line
printed-answer = refl

none_made : generate_keys foundry 0 ≡ ok []
unfolding generate_keys
none_made = refl

update_wallet_env-IsRepeatable_example :
    IsRepeated calm (answer true) (answer false) first_run.1.disk second_run.1.disk
update_wallet_env-IsRepeatable_example =
    update_wallet_env-IsRepeatable calm calm (generate_keys foundry) env_path env_path machine
      first_run.1 {r = answer true} {r' = answer false} {n = first_run.1} {n' = second_run.1}
      none_made first_run-answer refl second_run-answer refl

-- The fourth call fails.
abbrev unlucky : Host
unlucky = host_with (λ n. if n == 3 then some DiskFault.no_space else none)

update_wallet_env-IsUpdated_example :
    Post
      (λ result d. IsUpdated unlucky (generate_keys foundry) env_path machine.disk result d)
      (IsKeptSomewhere unlucky machine.disk env_path)
      (update_wallet_env unlucky (generate_keys foundry) env_path machine).0
      (update_wallet_env unlucky (generate_keys foundry) env_path machine).1.disk
update_wallet_env-IsUpdated_example =
    update_wallet_env-IsUpdated unlucky (generate_keys foundry) env_path machine

abbrev target : PreparedTarget
target = record {
  requested_path = env_path;
  target_path = env_path;
  original = env_text;
  symlink = false;
  found = some (record { device = 1; inode = 2; size = 84; modified = 5 });
}

atomic_replace-IsAtomic_example :
    Leaves
      (IsOldOrNew env_path "K=1\n" machine.disk)
      (λ _ d. IsReplaced env_path (temporary_of calm target machine) "K=1\n" machine.disk d)
      (IsElsewhere (temporary_of calm target machine) machine.disk)
      (atomic_replace calm target "K=1\n" machine)
atomic_replace-IsAtomic_example = atomic_replace-IsAtomic calm target "K=1\n" machine refl

abbrev first_update : WalletUpdate
first_update = record {
  keys = key_a ∷ key_b ∷ [];
  changed = true;
  contents = env_text <> ("BORROWER_PRIVATE_KEY=" <> (key_b <> "\n"));
}

first_update-decided : decide (generate_keys foundry) env_text true ≡ ok first_update
unfolding map_all is_space trim_start trim_end trim lower same_hex is_hex_digit is_hex_run is_hex
    is_line_end after_prefix first_line some_value value_of value_at or_else find_value
    is_private_key checked_key read_key append_entry render_missing render assert_distinct
    present_keys fill_keys check_present all_private accept_keys complete_keys decide suppressed
    checked_count checked_private_key has_address wallet_key some_keys generate_keys
first_update-decided = refl

decide-IsStable_example : IsStable env_text (generate_keys foundry) first_update
decide-IsStable_example =
    decide-IsStable (generate_keys foundry) env_text true {u = first_update} none_made
      first_update-decided
