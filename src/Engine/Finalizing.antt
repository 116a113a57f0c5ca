-- ===== src/Engine/Finalizing.antt =====
-- What `finalizeEnvelope` of worker/engine.ts leaves behind.
use cr3d_x.Base.{ℕ, ◌≡◌, none, List, [], ◌∷◌, ◌++◌, ◌⊎◌}
use cr3d_x.Types.{WorkerTask, ConfirmedOperation, InFlightEnvelope}
use cr3d_x.Types.Port.{DestinationReceipt}
use cr3d_x.Exec.{World, Effect, wrote_task}
use cr3d_x.Exec.Keeps.{Keeps}
use cr3d_x.Engine.Confirm.{operation_of}

-- The operation is the last one that the task has confirmed, and no envelope is left.
pub record IsClosed (operation : ConfirmedOperation) (t : WorkerTask) : Type 0 where
  pub released : t.in_flight ≡ none
  pub earlier : List ConfirmedOperation
  pub recorded : t.logical.operation_history ≡ earlier ++ operation ∷ []

-- Some write of a task is one that closes the operation.
abbrev pub HasClosed : ConfirmedOperation → List Effect → Type 0
HasClosed operation [] = ⊥
HasClosed operation (wrote_task t ∷ trace) = IsClosed operation t ⊎ HasClosed operation trace
HasClosed operation (_ ∷ trace) = HasClosed operation trace

-- The operation is durably closed, and the running task holds no envelope.
pub record IsFinalized (operation : ConfirmedOperation) (w : World) : Type 0 where
  pub released : w.task.in_flight ≡ none
  pub closed : HasClosed operation w.trace

module _ (operation : ConfirmedOperation) where
  -- The running task is closed, but not yet written.
  abbrev IsReady : World → Type 0
  IsReady w = IsClosed operation w.task

-- The history of the running task ends with the operation.
record IsRecorded (operation : ConfirmedOperation) (w : World) : Type 0 where
  earlier : List ConfirmedOperation
  recorded : w.task.logical.operation_history ≡ earlier ++ operation ∷ []

-- The operation that the receipt confirms for the envelope, at some time, is closed.
abbrev pub ClosesEnvelope : InFlightEnvelope → DestinationReceipt → World → Type 0
ClosesEnvelope envelope receipt w =
    (timestamp : ℕ) × IsFinalized (operation_of envelope receipt timestamp) w
