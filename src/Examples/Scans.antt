-- ===== src/Examples/Scans.antt =====
-- Concrete candidates, receipts and admissions of the scan.
use cr3d_x.Base.{same_hex, ◌≡◌, refl, true, false, List, [], ◌∷◌}
use cr3d_x.Types.Port.{CandidateLogRef, RawSourceReceipt}
use cr3d_x.Engine.Candidates.{by_transaction}
use cr3d_x.Engine.Scan.Groups.{refs_of, of_transaction, by_transaction-refs_of}
use cr3d_x.Engine.Admission.{admit_enrolled, new_evidence_record, admit_existing}
use cr3d_x.Engine.Marks.{now}
use cr3d_x.Exec.{◌>>=◌, require, traverse, on_option, open_task}
use cr3d_x.State.{list_tasks, assert_established, check_task, check_envelope, task_id_of}
use cr3d_x.Policy.{is_some}
use cr3d_x.Engine.Limits.{IsWithinTaskLimits, admit_enrolled-IsWithinTaskLimits}
use cr3d_x.Examples.Worker.{small_env, small_world, source_hash, operation_hash, ready_event}

abbrev first_ref : CandidateLogRef
first_ref = record {
  transaction_hash = "0xAB";
  block_number = 120;
  block_hash = operation_hash;
  log_index = 1;
  topic0 = "0x01";
}

abbrev three_refs : List CandidateLogRef
three_refs =
    first_ref
    ∷ record first_ref { transaction_hash = "0xcd" }
    ∷ record first_ref { log_index = 4 }
    ∷ []

by_transaction-refs_of_example :
    refs_of "0xab" (by_transaction three_refs) ≡ of_transaction "0xab" three_refs
by_transaction-refs_of_example = by_transaction-refs_of "0xab" three_refs

abbrev moved_receipt : RawSourceReceipt
moved_receipt = record {
  transaction_hash = source_hash;
  block_number = 121;
  block_hash = operation_hash;
  transaction_index = 3;
  status = 1;
  logs = [];
}

admit_enrolled-IsWithinTaskLimits_example :
    IsWithinTaskLimits small_env moved_receipt (ready_event.event ∷ []) small_world
unfolding admit_enrolled ◌>>=◌ require list_tasks assert_established traverse check_task
    check_envelope on_option is_some task_id_of new_evidence_record now admit_existing open_task
    same_hex
admit_enrolled-IsWithinTaskLimits_example =
    admit_enrolled-IsWithinTaskLimits small_env true moved_receipt (ready_event.event ∷ []) false
      small_world refl
