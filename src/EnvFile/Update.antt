-- ===== src/EnvFile/Update.antt =====
-- What `updateWalletEnv` of scripts/lib/env-persistence.ts decides on the text that it has read: the keys
-- of the two wallets, and the new text.
use cr3d_x.Base.{
  ℕ, ◌-◌, String, Bool, not, ◌&&◌, ◌||◌, Option, none, some, List, [], ◌∷◌, map, ltb, ◌==◌, length,
  any, same_hex,
}
use cr3d_x.Types.Port.{Result, ok, threw}
use cr3d_x.Types.Fallible.{◌>>=◌, ◌>>◌, guard, map_all}
use cr3d_x.EnvFile.Text.{is_private_key, read_key, render}

pub record WalletRole : Type 0 where
  pub label : String
  pub variable : String

abbrev pub wallet_roles : List WalletRole
wallet_roles =
    record { label = "A (deployer/investor)"; variable = "DEPLOYER_PRIVATE_KEY" }
    ∷ record { label = "B (borrower/payer)"; variable = "BORROWER_PRIVATE_KEY" }
    ∷ []

abbrev pub variables : List String
variables = map (λ (role : WalletRole). role.variable) wallet_roles

abbrev pub bad_keys : String
bad_keys = "Wallet generation returned invalid private-key data. Its output was suppressed."

unfoldable pub assert_distinct : List String → Result (Unit {0})
assert_distinct (first ∷ second ∷ []) = do
  guard (is_private_key first && is_private_key second) bad_keys
  guard (not (same_hex first second))
      "Wallet A and wallet B are identical. Refusing to save duplicate roles."
assert_distinct _ = threw bad_keys

-- existing.filter((key) => key !== undefined)
unfoldable pub present_keys : List (Option String) → List String
present_keys [] = []
present_keys (none ∷ existing) = present_keys existing
present_keys (some key ∷ existing) = key ∷ present_keys existing

-- existing.map((key) => key ?? generated[nextGenerated++]!)
unfoldable pub fill_keys : List (Option String) → List String → List String
fill_keys [] generated = []
fill_keys (some key ∷ existing) generated = key ∷ fill_keys existing generated
fill_keys (none ∷ existing) [] = "undefined" ∷ fill_keys existing []
fill_keys (none ∷ existing) (key ∷ generated) = key ∷ fill_keys existing generated

-- Two present keys have to differ.
unfoldable pub check_present : List String → Result (Unit {0})
check_present (first ∷ second ∷ []) = assert_distinct (first ∷ second ∷ [])
check_present _ = ok tt

unfoldable pub all_private : List String → Bool
all_private keys = not (any (λ key. not (is_private_key key)) keys)

pub record WalletUpdate : Type 0 where
  pub keys : List String
  pub changed : Bool
  pub contents : String

-- updateWalletEnv behind the generator.
unfoldable pub accept_keys :
    String → Bool → List (Option String) → List String → Result WalletUpdate
accept_keys original existed existing generated = do
  guard
      ((length generated == length variables - length (present_keys existing))
        && all_private generated)
      bad_keys
  assert_distinct (fill_keys existing generated)
  ok (record {
    keys = fill_keys existing generated;
    changed = ltb 0 (length generated) || not existed;
    contents = render original variables existing (fill_keys existing generated);
  })

unfoldable pub complete_keys :
    (ℕ → Result (List String)) → String → Bool → List (Option String) → Result WalletUpdate
complete_keys generate_keys original existed existing = do
  check_present (present_keys existing)
  generated ← generate_keys (length variables - length (present_keys existing))
  accept_keys original existed existing generated

-- updateWalletEnv between prepareTarget and atomicReplace
unfoldable pub decide : (ℕ → Result (List String)) → String → Bool → Result WalletUpdate
decide generate_keys original existed = do
  existing ← map_all (read_key original) variables
  complete_keys generate_keys original existed existing
