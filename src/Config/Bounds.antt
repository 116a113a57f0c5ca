-- ===== src/Config/Bounds.antt =====
-- What a configuration that worker/config.ts loads is fit for.
use Prim.Native.Char.{Char, code}
use cr3d_x.Base.{
  ℕ, String, ◌≤◌, ◌≡◌, refl, sym, ap, ◌∙◌, subst, str_eq, Bool, true, false, not, ◌&&◌, Option,
  none, some, ◌==◌, arith, Bool-cases, inl, inr, if◌then◌else◌,
}
use cr3d_x.Types.{WorkerLimits, WorkerConfig}
use cr3d_x.Types.Port.{ok, threw}
use cr3d_x.Types.Fallible.{guard, ok-eq, bind-eq-ok, guard-eq-ok}
use cr3d_x.Config.{
  Process, positive, non_zero, big_int, is_absolute, without_slashes, is_zero_text, Endpoints,
  ChainNumbers, required_env, positive_or, positive_integer, non_negative_integer, positive_big_int,
  load_endpoints, load_chain_numbers, load_addresses, load_limits, load_worker_config,
}

unfoldable pub ends_in_slash : String → Bool
ends_in_slash String.[] = false
ends_in_slash (String.◌∷◌ c String.[]) = code c == 47
ends_in_slash (String.◌∷◌ c (String.◌∷◌ d text)) = ends_in_slash (String.◌∷◌ d text)

-- The numbers are positive, the limits on tasks and events are the fixed ones, the state directory is
-- resolved from an absolute path, and the address of the proof builder does not end in a slash.
pub record IsUsable (process : Process) (config : WorkerConfig) : Type 0 where
  pub source_chain_id : 1 ≤ config.source_chain_id
  pub source_chain_key : 1 ≤ config.source_chain_key
  pub destination_chain_id : 1 ≤ config.destination_chain_id
  pub poll_interval_ms : 1 ≤ config.poll_interval_ms
  pub gas_cap : 1 ≤ config.limits.transaction_gas_cap
  pub fee_cap : 1 ≤ config.limits.max_fee_per_gas_cap
  pub fee_budget : 1 ≤ config.limits.rolling_24_hour_fee_budget
  pub reserve : 1 ≤ config.limits.minimum_signer_balance_reserve
  pub tasks : config.limits.max_non_terminal_tasks ≡ 1000
  pub events : config.limits.max_events_per_transaction ≡ 32
  pub directory :
      (raw : String) × (is_absolute raw ≡ true) × (config.state_dir ≡ process.resolve raw)
  pub proof_builder : ends_in_slash config.proof_builder_url ≡ false

positive-bounds : (name : String) (read : Option ℕ) {n : ℕ} → positive name read ≡ ok n → 1 ≤ n
unfolding positive
positive-bounds name none e = ground (arith, e)
positive-bounds name (some m) e = ground (arith, e)

non_zero-bounds : (name : String) (read : Option ℕ) {n : ℕ} → non_zero name read ≡ ok n → 1 ≤ n
unfolding non_zero
non_zero-bounds name none e = ground (arith, e)
non_zero-bounds name (some m) e = ground (arith, e)

cons-ends :
    (c : Char) (rest : String)
    → ends_in_slash rest ≡ false
    → ends_in_slash (if (code c == 47) && str_eq rest "" then String.[] else String.◌∷◌ c rest)
      ≡ false
unfolding ends_in_slash
cons-ends c String.[] h = elim (Bool-cases (code c == 47)) [
  | inl slash ↦ rw slash refl
  | inr other ↦ rw other other
]
cons-ends c (String.◌∷◌ d text) h =
    elim (Bool-cases ((code c == 47) && str_eq (String.◌∷◌ d text) "")) [
      | inl gone ↦ rw gone refl
      | inr stays ↦ rw stays h
    ]

without_slashes-ends : (text : String) → ends_in_slash (without_slashes text) ≡ false
unfolding without_slashes ends_in_slash
without_slashes-ends String.[] = refl
without_slashes-ends (String.◌∷◌ c text) =
    cons-ends c (without_slashes text) (without_slashes-ends text)

module _ (process : Process) where
  positive_or-bounds :
      (name : String) (fallback : Option ℕ) (raw : Option String) {n : ℕ}
      → ((m : ℕ) → fallback ≡ some m → 1 ≤ m)
      → positive_or process name fallback raw ≡ ok n
      → 1 ≤ n
  unfolding positive_or
  positive_or-bounds name none none fits e = positive-bounds name none e
  positive_or-bounds name (some m) none fits e = ground (arith, fits m refl, e)
  positive_or-bounds name none (some raw) fits e = positive-bounds name (process.number raw) e
  positive_or-bounds name (some m) (some raw) fits e = elim (Bool-cases (str_eq raw "")) [
    | inl empty ↦ let f = fits m refl in ground (arith, f, rw empty at e)
    | inr full ↦ positive-bounds name (process.number raw) (rw full at e)
  ]

  positive_big_int-bounds : (name : String) {n : ℕ} → positive_big_int process name ≡ ok n → 1 ≤ n
  unfolding positive_big_int
  positive_big_int-bounds name e =
      let (raw, is_there, checked) = bind-eq-ok (required_env process name) _ e in
      non_zero-bounds name (big_int raw) checked

  positive_integer-bounds :
      (name : String) {n : ℕ} → positive_integer process name none ≡ ok n → 1 ≤ n
  unfolding positive_integer
  positive_integer-bounds name e =
      positive_or-bounds name none (process.env name) (λ m none_some. cc) e

  positive_integer-fallback :
      (name : String) {n : ℕ} → positive_integer process name (some 5000) ≡ ok n → 1 ≤ n
  unfolding positive_integer
  positive_integer-fallback name e =
      positive_or-bounds name (some 5000) (process.env name) (λ m is. ground (arith, is)) e

  load_endpoints-AreUsable :
      {endpoints : Endpoints}
      → load_endpoints process ≡ ok endpoints
      → ((raw : String) × (is_absolute raw ≡ true) × (endpoints.state_dir ≡ process.resolve raw))
        × (ends_in_slash endpoints.proof_builder ≡ false)
  unfolding load_endpoints
  load_endpoints-AreUsable {endpoints} e =
      let (raw, e0, e1) = bind-eq-ok (required_env process "CR3DX_WORKER_STATE_DIR") _ e in
      let (u, absolute, e2) = bind-eq-ok (guard (is_absolute raw) _) _ e1 in
      let (source, e3, e4) = bind-eq-ok (required_env process _) _ e2 in
      let (destination, e5, e6) = bind-eq-ok (required_env process _) _ e4 in
      let (substrate, e7, e8) = bind-eq-ok (required_env process _) _ e6 in
      let (builder, e9, e10) = bind-eq-ok (required_env process _) _ e8 in
      (
        (raw, guard-eq-ok (is_absolute raw) _ absolute, ground (arith, e10)),
        ap ends_in_slash (ok_builder e10) ∙ without_slashes-ends builder,
      )
    where
      ok_builder : {a b : Endpoints} → ok a ≡ ok b → b.proof_builder ≡ a.proof_builder
      ok_builder {a} e =
          sym (ap (λ r. elim r [ ok x ↦ x.proof_builder | threw message ↦ a.proof_builder ]) e)

  load_chain_numbers-ArePositive :
      {numbers : ChainNumbers}
      → load_chain_numbers process ≡ ok numbers
      → (1 ≤ numbers.source_id) × (1 ≤ numbers.source_key) × (1 ≤ numbers.destination_id)
  unfolding load_chain_numbers
  load_chain_numbers-ArePositive {numbers} e =
      let (id, e0, e1) = bind-eq-ok (positive_integer process _ none) _ e in
      let (key, e2, e3) = bind-eq-ok (positive_integer process _ none) _ e1 in
      let (destination, e4, e5) = bind-eq-ok (positive_integer process _ none) _ e3 in
      let (start, e6, e7) = bind-eq-ok (non_negative_integer process _) _ e5 in
      let b0 = positive_integer-bounds _ e0 in
      let b1 = positive_integer-bounds _ e2 in
      let b2 = positive_integer-bounds _ e4 in
      (ground (arith, b0, e7), ground (arith, b1, e7), ground (arith, b2, e7))

  load_limits-ArePositive :
      {limits : WorkerLimits}
      → load_limits process ≡ ok limits
      → (1 ≤ limits.transaction_gas_cap)
        × (1 ≤ limits.max_fee_per_gas_cap)
        × (1 ≤ limits.rolling_24_hour_fee_budget)
        × (1 ≤ limits.minimum_signer_balance_reserve)
        × (limits.max_non_terminal_tasks ≡ 1000)
        × (limits.max_events_per_transaction ≡ 32)
  unfolding load_limits
  load_limits-ArePositive {limits} e =
      let (gas, e0, e1) = bind-eq-ok (positive_big_int process _) _ e in
      let (fee, e2, e3) = bind-eq-ok (positive_big_int process _) _ e1 in
      let (budget, e4, e5) = bind-eq-ok (positive_big_int process _) _ e3 in
      let (reserve, e6, e7) = bind-eq-ok (positive_big_int process _) _ e5 in
      let b0 = positive_big_int-bounds _ e0 in
      let b1 = positive_big_int-bounds _ e2 in
      let b2 = positive_big_int-bounds _ e4 in
      let b3 = positive_big_int-bounds _ e6 in
      (
        ground (arith, b0, e7),
        ground (arith, b1, e7),
        ground (arith, b2, e7),
        ground (arith, b3, e7),
        ground (arith, e7),
        ground (arith, e7),
      )

  -- What a configuration that loads is fit for: its chain numbers, poll interval, caps, fee budget and
  -- reserve are positive, the task and event limits are 1000 and 32, the state directory is resolved from
  -- an absolute path, and the proof builder's address does not end in a slash.
  pub load_worker_config-IsUsable :
      {config : WorkerConfig} → load_worker_config process ≡ ok config → IsUsable process config
  unfolding load_worker_config
  load_worker_config-IsUsable {config} e =
      let (u, e0, e1) =
        bind-eq-ok
          (guard (not (is_zero_text (process.env "NODE_TLS_REJECT_UNAUTHORIZED")))
            "Refusing S6 worker with NODE_TLS_REJECT_UNAUTHORIZED=0")
          _ e in
      let (endpoints, e2, e3) = bind-eq-ok (load_endpoints process) _ e1 in
      let (numbers, e4, e5) = bind-eq-ok (load_chain_numbers process) _ e3 in
      let (addresses, e6, e7) = bind-eq-ok (load_addresses process) _ e5 in
      let (poll, e8, e9) = bind-eq-ok (positive_integer process _ (some 5000)) _ e7 in
      let (limits, e10, e11) = bind-eq-ok (load_limits process) _ e9 in
      let (directory, proof_builder) = load_endpoints-AreUsable e2 in
      let (source_id, source_key, destination_id) = load_chain_numbers-ArePositive e4 in
      let (gas_cap, fee_cap, fee_budget, reserve, tasks, events) = load_limits-ArePositive e10 in
      subst (IsUsable process) (ok-eq e11) (record {
        source_chain_id = source_id;
        source_chain_key = source_key;
        destination_chain_id = destination_id;
        poll_interval_ms = positive_integer-fallback _ e8;
        gas_cap = gas_cap;
        fee_cap = fee_cap;
        fee_budget = fee_budget;
        reserve = reserve;
        tasks = tasks;
        events = events;
        directory = directory;
        proof_builder = proof_builder;
      })
