-- ===== src/EnvFile/Generate.antt =====
-- scripts/create-wallets.ts: keys from Foundry's `cast`, and what the script prints. The program, the
-- reading of its output as JSON and the address of a key are parameters.
use cr3d_x.Base.{
  ℕ, String, ◌<>◌, str_eq, Bool, true, false, not, ◌&&◌, Option, none, some, List, [], ◌∷◌, ◌++◌,
  ◌==◌, length, same_hex, if◌then◌else◌,
}
use cr3d_x.Types.Port.{Result, ok, threw}
use cr3d_x.Types.Fallible.{◌>>=◌, ◌>>◌, guard, map_all}
use cr3d_x.EnvFile.Text.{is_private_key}
use cr3d_x.EnvFile.Update.{WalletRole, wallet_roles}
use cr3d_x.EnvFile.Prepare.{WalletEnvUpdateResult}

-- An entry of the output, each field where it is there.
pub record CastWallet : Type 0 where
  pub address : Option String
  pub private_key : Option String

-- `cast` throws where the program is not found or fails. `read_json` answers none where the output is no
-- array, and throws where it is no JSON.
pub record Foundry : Type 0 where
  pub cast : ℕ → Result String
  pub read_json : String → Result (Option (List CastWallet))
  pub address_of : String → String

unfoldable pub suppressed : {A : Type 0} → Result A → String → Result A
suppressed (ok a) message = ok a
suppressed (threw why) message = threw message

unfoldable pub checked_count : ℕ → Option (List CastWallet) → Result (List CastWallet)
checked_count count none =
    threw "Foundry returned an unexpected wallet count. Its output was suppressed."
checked_count count (some wallets) =
    if length wallets == count
    then ok wallets
    else threw "Foundry returned an unexpected wallet count. Its output was suppressed."

unfoldable pub checked_private_key : Option String → Result String
checked_private_key none =
    threw "Foundry returned an invalid private key. Its output was suppressed."
checked_private_key (some key) =
    if is_private_key key
    then ok key
    else threw "Foundry returned an invalid private key. Its output was suppressed."

-- An empty address is none.
unfoldable pub has_address : String → Option String → Bool
has_address derived none = false
has_address derived (some address) = not (str_eq address "") && same_hex derived address

module _ (foundry : Foundry) where
  unfoldable pub wallet_key : CastWallet → Result String
  wallet_key wallet = do
    key ← checked_private_key wallet.private_key
    guard (has_address (foundry.address_of key) wallet.address)
        "Foundry wallet address/key validation failed. Its output was suppressed."
    ok key

  unfoldable pub some_keys : ℕ → Result (List String)
  some_keys count = do
    stdout ←
        suppressed (foundry.cast count)
          "Foundry failed to generate the wallets. Its output was suppressed in case it contained secrets."
    parsed ←
        suppressed (foundry.read_json stdout)
          "Foundry returned unexpected wallet output. It was suppressed in case it contained secrets."
    wallets ← checked_count count parsed
    map_all wallet_key wallets

  unfoldable pub generate_keys : ℕ → Result (List String)
  generate_keys count = elim (count == 0) [ true ↦ ok [] | false ↦ some_keys count ]

  unfoldable pub address_lines : List WalletRole → List String → List String
  address_lines (role ∷ roles) (key ∷ keys) =
      (role.label <> (": " <> foundry.address_of key)) ∷ address_lines roles keys
  address_lines _ _ = []

  unfoldable pub last_line : Bool → String
  last_line true =
      "Private keys were written to the protected .env symlink target and were not printed."
  last_line false = "Private keys were written to the ignored .env and were not printed."

  unfoldable pub printed : WalletEnvUpdateResult → List String
  printed result = address_lines wallet_roles result.keys ++ (last_line result.symlink ∷ [])
