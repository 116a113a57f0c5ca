-- ===== src/Enrollment/Enrolling.antt =====
-- The command `enroll` of worker/cli.ts behind its arguments: the check of the deployment, the state, the
-- head of the source chain, `enrollDeal`, and the write.
use cr3d_x.Base.{ℕ, String, ◌≡◌, Option, is_hex}
use cr3d_x.Types.{Hex, WorkerState, Enrollment}
use cr3d_x.Types.Port.{Result, ok, threw, Env}
use cr3d_x.Exec.{World, Exec, pure, throw, call, ◌>>=◌, ◌>>◌, require}
use cr3d_x.State.{read_state, write_state}
use cr3d_x.State.Values.{AnswersSince}
use cr3d_x.Enrollment.{EnrollmentInput, enroll_deal}
use cr3d_x.Enrollment.Entries.{IsEnrolled}

-- A pure function that may throw.
unfoldable pub or_throw : {A : Type 0} → Result A → Exec A
or_throw (ok a) = pure a
or_throw (threw message) = throw message

unfoldable pub input_of : WorkerState → Hex → ℕ → Option ℕ → Option String → ℕ → EnrollmentInput
input_of state deal_id head effective reason now = record {
  state = state;
  deal_id = deal_id;
  observed_source_head = head;
  effective_from_source_block = effective;
  reason = reason;
  now = now;
}

module _ (env : Env) where
  unfoldable pub enroll_command : Hex → Option ℕ → Option String → Exec Enrollment
  enroll_command deal_id effective reason = do
    require (is_hex 64 deal_id) "enroll requires a bytes32 dealId"
    call env.chain.assert_deployment_configuration
    state ← read_state
    head ← call env.chain.source_head
    now ← call (λ n. ok (env.wall_clock n))
    enrolled ← or_throw (enroll_deal (input_of state deal_id head effective reason now))
    write_state enrolled.1
    pure enrolled.0

  -- The state file is the old one with the entry, which takes the head that the chain answered and the time
  -- that the clock told since the command began, and the task files are as they were.
  pub record IsEnrolledFrom (deal_id : Hex) (effective : Option ℕ) (reason : Option String)
      (w : World) (entry : Enrollment) (v : World) : Type 0 where
    pub head : ℕ
    pub now : ℕ
    pub observed : AnswersSince w env.chain.source_head head
    pub told : AnswersSince w (λ n. ok (env.wall_clock n)) now
    pub enrolled : IsEnrolled (input_of w.state deal_id head effective reason now) (entry, v.state)
    pub tasks : v.tasks ≡ w.tasks
