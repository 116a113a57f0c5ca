-- ===== src/State/Bootstrap.antt =====
-- worker/state.ts `bootstrap`, and the command of worker/cli.ts that calls it. It makes the directory
-- that all other methods find established.
use cr3d_x.Base.{
  ℕ, suc, ◌<>◌, ◌≡◌, refl, Bool, true, false, not, ◌&&◌, ◌||◌, Option, none, some, [], ◌==◌,
  if◌then◌else◌, decimal, arith, ap, inl, inr, Bool-cases,
}
use cr3d_x.Types.{Hex, worker_schema_version, WorkerState}
use cr3d_x.Types.Port.{Result, ok, threw, Nonces, Env}
use cr3d_x.Policy.{is_some}

-- What `existsSync` and `assertMode` find: the state directory, whether it is private to the user, the
-- task directory in it, and the state file.
pub record StateDirectory : Type 0 where
  pub made : Bool
  pub is_private : Bool
  pub has_tasks_dir : Bool
  pub state_file : Option WorkerState

-- The tests of assertEstablished; the task directory is made with the mode that it asks for.
unfoldable pub is_established : StateDirectory → Bool
is_established d = d.made && is_some d.state_file && d.has_tasks_dir && d.is_private

-- mkdirSync(stateDir, mode 0o700) where there is none
unfoldable pub made_directory : StateDirectory → StateDirectory
made_directory d = if d.made then d else record d { made = true; is_private = true }

unfoldable pub first_state : Hex → ℕ → ℕ → WorkerState
first_state signer latest_nonce at = record {
  schema_version = worker_schema_version;
  initialized_at = at;
  signer_address = signer;
  bootstrap_latest_nonce = latest_nonce;
  source_cursor = none;
  enrollments = [];
  enrollment_history = [];
  global_attention_reasons = [];
  runtime_observation = none;
}

-- The message of assertMode names the path and the mode.
-- bootstrap behind the task directory, on the checksummed address
unfoldable pub write_first :
    StateDirectory → Result Hex → ℕ → ℕ → Result WorkerState × StateDirectory
write_first d (threw message) latest_nonce at = (threw message, d)
write_first d (ok signer) latest_nonce at = (
  ok (first_state signer latest_nonce at),
  record d { state_file = some (first_state signer latest_nonce at) },
)

unfoldable pub fill_directory :
    StateDirectory → Result Hex → ℕ → ℕ → Result WorkerState × StateDirectory
fill_directory d signer latest_nonce at =
    if not d.is_private
    then (threw "the state directory has another mode or owner", d)
    else write_first (record d { has_tasks_dir = true }) signer latest_nonce at

unfoldable pub bootstrap : StateDirectory → Result Hex → ℕ → ℕ → Result WorkerState × StateDirectory
bootstrap d signer latest_nonce at =
    if is_some d.state_file || d.has_tasks_dir
    then (threw "State directory is already established; bootstrap refused", d)
    else fill_directory (made_directory d) signer latest_nonce at

-- `get_address` is ethers' getAddress.
module _ (env : Env) (get_address : Hex → Result Hex) where
  -- The call of store.bootstrap, whose argument chain.signerAddress() is made before it.
  unfoldable pub bootstrap_as :
      StateDirectory → ℕ → Result Hex → ℕ → Result WorkerState × StateDirectory
  bootstrap_as d n (threw message) latest_nonce = (threw message, d)
  bootstrap_as d n (ok address) latest_nonce =
      bootstrap d (get_address address) latest_nonce (env.wall_clock n)

  unfoldable pub bootstrap_at :
      StateDirectory → ℕ → Result Nonces → Result WorkerState × StateDirectory
  bootstrap_at d n (threw message) = (threw message, d)
  bootstrap_at d n (ok nonces) =
      if not (nonces.latest == nonces.pending)
      then (
        threw (
            "Bootstrap refuses unresolved signer nonce: latest="
            <> decimal nonces.latest
            <> ", pending="
            <> decimal nonces.pending),
        d,
      )
      else bootstrap_as d (suc n) (env.chain.signer_address n) nonces.latest

  unfoldable pub bootstrap_checked :
      StateDirectory → ℕ → Result (Unit {0}) → Result WorkerState × StateDirectory
  bootstrap_checked d n (threw message) = (threw message, d)
  bootstrap_checked d n (ok done) = bootstrap_at d (suc n) (env.chain.nonces n)

  -- The command `bootstrap`, with the calls of the chain from the n-th on.
  unfoldable pub bootstrap_command : StateDirectory → ℕ → Result WorkerState × StateDirectory
  bootstrap_command d n =
      if is_some d.state_file
      then (threw "Worker state already exists", d)
      else bootstrap_checked d (suc n) (env.chain.assert_deployment_configuration n)

  -- What a first start leaves: a directory that had no state is established, with the state file that is
  -- returned, whose nonce is the one that the chain answered as latest and as pending.
  pub record IsFirstStart (d : StateDirectory) (n : ℕ) (state : WorkerState) (d' : StateDirectory)
      : Type 0 where
    pub no_file : d.state_file ≡ none
    pub no_tasks : d.has_tasks_dir ≡ false
    pub established : is_established d' ≡ true
    pub stored : d'.state_file ≡ some state
    pub answered : Nonces
    pub at_call : env.chain.nonces (suc n) ≡ ok answered
    pub settled : answered.latest ≡ answered.pending
    pub recorded : state.bootstrap_latest_nonce ≡ answered.latest

  bootstrap-established :
      (d : StateDirectory) (signer : Result Hex) (latest_nonce at : ℕ) {state : WorkerState}
      {d' : StateDirectory}
      → bootstrap d signer latest_nonce at ≡ (ok state, d')
      → (d.state_file ≡ none)
        × (d.has_tasks_dir ≡ false)
        × (is_established d' ≡ true)
        × (d'.state_file ≡ some state)
        × (state.bootstrap_latest_nonce ≡ latest_nonce)
  unfolding bootstrap fill_directory write_first made_directory first_state is_established is_some
  bootstrap-established d (threw message) latest_nonce at e = ground arith
  bootstrap-established d (ok signer) latest_nonce at e = ground arith

  bootstrap_as-established :
      (d : StateDirectory) (n : ℕ) (signer : Result Hex) (latest_nonce : ℕ) {state : WorkerState}
      {d' : StateDirectory}
      → bootstrap_as d n signer latest_nonce ≡ (ok state, d')
      → (d.state_file ≡ none)
        × (d.has_tasks_dir ≡ false)
        × (is_established d' ≡ true)
        × (d'.state_file ≡ some state)
        × (state.bootstrap_latest_nonce ≡ latest_nonce)
  unfolding bootstrap_as
  bootstrap_as-established d n (threw message) latest_nonce e = cc (ap (λ r. r.0) e)
  bootstrap_as-established d n (ok address) latest_nonce e =
      bootstrap-established d _ latest_nonce _ e

  bootstrap_at-IsFirstStart :
      (d : StateDirectory) (n : ℕ) (answer : Result Nonces) {state : WorkerState}
      {d' : StateDirectory}
      → env.chain.nonces (suc n) ≡ answer
      → bootstrap_at d (suc (suc n)) answer ≡ (ok state, d')
      → IsFirstStart d n state d'
  unfolding bootstrap_at
  bootstrap_at-IsFirstStart d n (threw message) same e = cc (ap (λ r. r.0) e)
  bootstrap_at-IsFirstStart d n (ok nonces) same e =
      elim (Bool-cases (nonces.latest == nonces.pending)) [
        | inl settled ↦
            let (file, tasks, established, stored, recorded) =
              bootstrap_as-established d _ _ nonces.latest (rw settled at e) in
            record {
              no_file = file;
              no_tasks = tasks;
              established = established;
              stored = stored;
              answered = nonces;
              at_call = same;
              settled = ground (arith, settled);
              recorded = recorded;
            }
        | inr open_nonce ↦ ground (arith, open_nonce)
      ]

  bootstrap_checked-IsFirstStart :
      (d : StateDirectory) (n : ℕ) (checked : Result (Unit {0})) {state : WorkerState}
      {d' : StateDirectory}
      → bootstrap_checked d (suc n) checked ≡ (ok state, d')
      → IsFirstStart d n state d'
  unfolding bootstrap_checked
  bootstrap_checked-IsFirstStart d n (threw message) e = cc (ap (λ r. r.0) e)
  bootstrap_checked-IsFirstStart d n (ok done) e = bootstrap_at-IsFirstStart d n _ refl e

  -- A bootstrap that returns has found no state, and equal nonces of the signer as latest and as pending;
  -- it leaves an established directory, with the state file that it returns under this nonce.
  pub bootstrap_command-IsFirstStart :
      (d : StateDirectory) (n : ℕ) {state : WorkerState} {d' : StateDirectory}
      → bootstrap_command d n ≡ (ok state, d')
      → IsFirstStart d n state d'
  unfolding bootstrap_command
  bootstrap_command-IsFirstStart d n e = elim (Bool-cases (is_some d.state_file)) [
    | inl found ↦ ground (arith, found)
    | inr new ↦ bootstrap_checked-IsFirstStart d n _ (rw new at e)
  ]
