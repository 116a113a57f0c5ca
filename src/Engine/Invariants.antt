-- ===== src/Engine/Invariants.antt =====
-- Invariants of the whole worker. `Rules` says what a predicate on the world has to survive for the
-- methods of worker/engine.ts, in the modules below.
pub mod Marks
pub mod Semantic
pub mod Envelope
pub mod Attempts
pub mod Scan
pub mod Commands
use cr3d_x.Base.{ℕ, ◌≡◌, Bool, Option}
use cr3d_x.Types.{LogicalTask, WorkerState, InFlightReceipt, InFlightPurpose}
use cr3d_x.Types.Port.{ok, TransactionRequest, succeeded, Env}
use cr3d_x.Exec.{World, modify_logical, note_receipt, release}
use cr3d_x.Exec.Keeps.{Keeps, IsCallProof}
use cr3d_x.State.{save_state, touch_task, save_task}
use cr3d_x.Engine.Broadcast.{broadcast_exact}
use cr3d_x.Engine.Claim.{claim_lane}

-- The assignments and writes that any method may make.
pub record Rules (P : World → Type 0) : Type 0 where
  pub calls : IsCallProof P
  pub logical : (f : LogicalTask → LogicalTask) → Keeps P (modify_logical f)
  pub receipt : (r : Option InFlightReceipt) → Keeps P (note_receipt r)
  pub released : Keeps P release
  pub state_saved : (state : WorkerState) → Keeps P (save_state state)
  pub touched : (at : ℕ) → Keeps P (touch_task at)
  pub task_saved : Keeps P save_task

-- A simulation of the transaction has succeeded.
abbrev pub IsSimulated : Env → TransactionRequest → Type 0
IsSimulated env request = (n : ℕ) × (env.chain.simulate n request ≡ ok succeeded)

-- The two places where more happens: the envelope is made, for a transaction that was simulated, and its
-- bytes are sent.
pub record LaneRules (env : Env) (P : World → Type 0) : Type 0 where
  pub claimed :
      (purpose : InFlightPurpose) (request : TransactionRequest)
      → IsSimulated env request
      → Keeps P (claim_lane env purpose request)
  pub sent : (operator_requested : Bool) → Keeps P (broadcast_exact env operator_requested)
