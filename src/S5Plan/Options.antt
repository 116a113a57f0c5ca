-- ===== src/S5Plan/Options.antt =====
-- The options of scripts/lib/s5-plan.ts that parse, and the runs that a balance covers.
use native.Mathlib.Nat.{le-div_iff_mul-le}
use cr3d_x.Base.{
  ℕ, zero, suc, ◌*◌, ◌/◌, ◌≤◌, subst, String, str_eq, ◌≡◌, true, Option, none, some, List, [], ◌∷◌,
  inl, inr, ◌↔◌, arith, Bool-cases,
}
use cr3d_x.Types.Port.{Result, ok, threw}
use cr3d_x.Policy.{is_some}
use cr3d_x.S5Plan.{
  continue, LiveOptions, initial_options, is_deal_id, runs_of, take_mode, take_runs, take_deal,
  take_value, set_preflight, and_then, read_arguments, is_continue, check_options,
  parse_live_options, run_capacity,
}

-- What the loop keeps of its variables.
abbrev pub IsRead : LiveOptions → Type 0
IsRead o = (1 ≤ o.runs) × (is_some o.resume_deal ≡ true → is_deal_id o.resume_deal ≡ true)

abbrev pub IsReadResult : Result LiveOptions → Type 0
IsReadResult (ok o) = IsRead o
IsReadResult (threw message) = Unit {0}

module _ (safe_integer : String → Option ℕ) where
  take_value-IsRead :
      (o : LiveOptions) (arg : String) (v : Option String)
      → IsRead o
      → IsReadResult (take_value safe_integer o arg v)
  unfolding take_value take_mode take_runs take_deal runs_of is_some
  take_value-IsRead o arg v h = ground arith

  and_then-IsRead :
      (r : Result LiveOptions) (f : LiveOptions → Result LiveOptions)
      → IsReadResult r
      → ((o : LiveOptions) → IsRead o → IsReadResult (f o))
      → IsReadResult (and_then safe_integer r f)
  unfolding and_then
  and_then-IsRead (ok o) f h k = k o h
  and_then-IsRead (threw message) f h k = tt

  read_arguments-IsRead :
      (argv : List String) (o : LiveOptions)
      → IsRead o
      → IsReadResult (read_arguments safe_integer o argv)
  unfolding read_arguments set_preflight
  read_arguments-IsRead [] o h = h
  read_arguments-IsRead (arg ∷ []) o h = elim (Bool-cases (str_eq arg "--preflight-only")) [
    | inl flag ↦ rw flag h
    | inr valued ↦ rw valued (take_value-IsRead o arg none h)
  ]
  read_arguments-IsRead (arg ∷ value ∷ rest) o h =
      elim (Bool-cases (str_eq arg "--preflight-only")) [
        | inl flag ↦ rw flag (read_arguments-IsRead (value ∷ rest) (set_preflight safe_integer o) h)
        | inr valued ↦ rw valued (
            and_then-IsRead _ _ (take_value-IsRead o arg (some value) h)
              (λ p hp. read_arguments-IsRead rest p hp))
      ]

  -- The options that a program may rely on.
  pub record IsUsable (o : LiveOptions) : Type 0 where
    pub chosen : is_some o.mode ≡ true
    pub positive : 1 ≤ o.runs
    pub resumable :
        is_some o.resume_deal ≡ true
        → (o.mode ≡ some continue) × (o.runs ≡ 1) × (is_deal_id o.resume_deal ≡ true)

  parsed-IsUsable :
      (r : Result LiveOptions) {o : LiveOptions}
      → IsReadResult r
      → and_then safe_integer r (check_options safe_integer) ≡ ok o
      → IsUsable o
  unfolding and_then check_options is_continue is_some
  parsed-IsUsable (ok p) {o = o} h e = record {
    chosen = ground arith;
    positive = ground arith;
    resumable = λ r. ground arith;
  }
  parsed-IsUsable (threw message) h e = cc

  -- Whatever the arguments, options that parse name a mode and a positive number of runs; a deal to
  -- resume is a bytes32, comes with `--mode continue`, and with one run.
  pub parse_live_options-IsUsable :
      (argv : List String) {o : LiveOptions}
      → parse_live_options safe_integer argv ≡ ok o
      → IsUsable o
  unfolding parse_live_options is_some
  parse_live_options-IsUsable argv e =
      parsed-IsUsable (read_arguments safe_integer initial_options argv)
        (read_arguments-IsRead argv initial_options (ground arith)) e

-- The capacity is the number of runs that the balance covers, and no more.
run_capacity-covers :
    (balance per_run runs : ℕ) {capacity : ℕ}
    → run_capacity balance per_run ≡ ok capacity
    → (runs ≤ capacity) ↔ (runs * per_run ≤ balance)
unfolding run_capacity
run_capacity-covers balance zero runs e = cc
run_capacity-covers balance (suc per_run) runs {capacity = capacity} e =
    let same : balance / suc per_run ≡ capacity = cc in
    subst (λ c. (runs ≤ c) ↔ (runs * suc per_run ≤ balance)) same (le-div_iff_mul-le (ground arith))
