-- ===== src/Policy/Simulation.antt =====
-- How worker/policy.ts reads failed simulations and visibilities.
use cr3d_x.Base.{
  false, String, str_eq, eq_iff, ◌≡◌, ◌≢◌, refl, Bool, true, ◌&&◌, inl, inr, some, List, [], ◌∷◌,
  Bool-cases, arith, All, all,
}
use cr3d_x.Types.{Hex}
use cr3d_x.Policy.{
  ErrorAbi, verifier_errors, deal_errors, error_string, ParsedError, no_match, parsed, success,
  refresh_proof, refreshable_continuity_error, classify_error, classify_with, classify_simulation,
  all_true, reconcile_seen,
}

-- An ABI reads the data as `Error(argument)`.
abbrev pub ReadsAsError : (ErrorAbi → Hex → ParsedError) → Hex → String → Type 0
ReadsAsError parse_error revert_data argument =
    (abi : ErrorAbi) × (parse_error abi revert_data ≡ parsed "Error" argument)

classify_error-refresh :
    (name argument : String)
    → classify_error name argument ≡ refresh_proof
    → (name ≡ "Error") × (argument ≡ refreshable_continuity_error)
unfolding classify_error
classify_error-refresh name argument e =
    let same : str_eq name "Error" && str_eq argument refreshable_continuity_error ≡ true =
      ground arith in
    (
      (eq_iff name "Error").0 (ground arith),
      (eq_iff argument refreshable_continuity_error).0 (ground arith),
    )

module _ (parse_error : ErrorAbi → Hex → ParsedError) (revert_data : Hex) where
  classify_with-refresh :
      (abis : List ErrorAbi)
      → classify_with parse_error revert_data abis ≡ refresh_proof
      → ReadsAsError parse_error revert_data refreshable_continuity_error
  unfolding classify_with
  classify_with-refresh [] e = cc
  classify_with-refresh (abi ∷ abis) e =
      parsed_as (parse_error abi revert_data) refl (classify_with-refresh abis) e
    where
      parsed_as :
          (p : ParsedError)
          → parse_error abi revert_data ≡ p
          → (classify_with parse_error revert_data abis ≡ refresh_proof
              → ReadsAsError parse_error revert_data refreshable_continuity_error)
          → elim p [
            | ParsedError.threw ↦ classify_with parse_error revert_data abis
            | no_match ↦ classify_with parse_error revert_data abis
            | parsed name argument ↦ classify_error name argument
          ]
            ≡ refresh_proof
          → ReadsAsError parse_error revert_data refreshable_continuity_error
      parsed_as ParsedError.threw same later e = later e
      parsed_as no_match same later e = later e
      parsed_as (parsed name argument) same later e =
          let (n, a) = classify_error-refresh name argument e in (abi, cc (same, n, a))

  -- A reverted simulation is retried with a fresh proof only if one of the three ABIs reads the data as
  -- `Error` with exactly the refreshable continuity message.
  pub classify_simulation-refresh :
      classify_simulation parse_error (some revert_data) ≡ refresh_proof
      → ReadsAsError parse_error revert_data refreshable_continuity_error
  unfolding classify_simulation
  classify_simulation-refresh e = elim (Bool-cases (str_eq revert_data "")) [
    | inl blank ↦ ground arith
    | inr full ↦
        classify_with-refresh (verifier_errors ∷ deal_errors ∷ error_string ∷ []) (ground arith)
  ]

classify_error-fails : (name argument : String) → classify_error name argument ≢ success
unfolding classify_error
classify_error-fails name argument e = ground arith

module _ (parse_error : ErrorAbi → Hex → ParsedError) (revert_data : Hex) where
  classify_with-fails :
      (abis : List ErrorAbi) → classify_with parse_error revert_data abis ≢ success
  unfolding classify_with
  classify_with-fails [] e = cc
  classify_with-fails (abi ∷ abis) e =
      parsed_as (parse_error abi revert_data) (classify_with-fails abis) e
    where
      parsed_as :
          (p : ParsedError)
          → classify_with parse_error revert_data abis ≢ success
          → elim p [
            | ParsedError.threw ↦ classify_with parse_error revert_data abis
            | no_match ↦ classify_with parse_error revert_data abis
            | parsed name argument ↦ classify_error name argument
          ]
            ≢ success
      parsed_as ParsedError.threw later e = later e
      parsed_as no_match later e = later e
      parsed_as (parsed name argument) later e = classify_error-fails name argument e

  -- Data that is not empty never counts as a success.
  pub classify_simulation-fails :
      str_eq revert_data "" ≡ false → classify_simulation parse_error (some revert_data) ≢ success
  unfolding classify_simulation
  classify_simulation-fails full =
      rw full (classify_with-fails (verifier_errors ∷ deal_errors ∷ error_string ∷ []))

all-All : (values : List Bool) → all (λ b. b) values ≡ true → All (λ b. b ≡ true) values
all-All [] e = tt
all-All (b ∷ values) e = (ground arith, all-All values (ground arith))

-- A submission counts as visible only if the chain was asked of some evidence and has seen all of it.
pub reconcile_seen-all_true :
    (values : List Bool)
    → reconcile_seen values ≡ all_true
    → (values ≢ []) × All (λ b. b ≡ true) values
unfolding reconcile_seen
reconcile_seen-all_true [] e = cc
reconcile_seen-all_true (b ∷ values) e = (λ h. cc, all-All (b ∷ values) (ground arith))
