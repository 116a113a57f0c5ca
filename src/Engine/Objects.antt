-- ===== src/Engine/Objects.antt =====
-- The objects inside a task that the methods of worker/engine.ts hold references to.
use cr3d_x.Base.{
  ℕ, suc, Option, none, some, List, [], ◌∷◌, map, ◌==◌, if◌then◌else◌, get_elem?, modify_at,
  find_index, positions, same_hex,
}
use cr3d_x.Types.{
  Hex, AttemptEpoch, EvidenceRecord, InclusionSnapshot, InFlightEnvelope, submission, application,
  LogicalTask,
}
use cr3d_x.Exec.{Exec, pure, throw, ◌>>=◌, on_option, modify_logical, get_logical}

-- An evidence record of a task: by its position in the current inclusion, or in an earlier one.
pub data EvidenceRef : Type 0 where
  in_current : ℕ → EvidenceRef
  in_history : ℕ → ℕ → EvidenceRef

-- task.logical.currentInclusion?.events ?? []
unfoldable pub inclusion_events : LogicalTask → List EvidenceRecord
inclusion_events l = elim l.current_inclusion [ none ↦ [] | some inclusion ↦ inclusion.events ]

unfoldable pub expected_ids : LogicalTask → List Hex
expected_ids l = map (λ event. event.expected_evidence_id) (inclusion_events l)

unfoldable pub event_at : EvidenceRef → LogicalTask → Option EvidenceRecord
event_at (in_current i) l = get_elem? (inclusion_events l) i
event_at (in_history k i) l = elim (get_elem? l.inclusion_history k) [
  | none ↦ none
  | some inclusion ↦ get_elem? inclusion.events i
]

unfoldable pub in_inclusion :
    (List EvidenceRecord → List EvidenceRecord) → InclusionSnapshot → InclusionSnapshot
in_inclusion f inclusion = record inclusion { events = f inclusion.events }

-- `f` on the events of the current inclusion, if there is one.
unfoldable pub in_current_events :
    (List EvidenceRecord → List EvidenceRecord) → LogicalTask → LogicalTask
in_current_events f l = record l {
  current_inclusion = elim l.current_inclusion [
    | none ↦ none
    | some inclusion ↦ some (in_inclusion f inclusion)
  ];
}

unfoldable pub update_event :
    EvidenceRef → (EvidenceRecord → EvidenceRecord) → LogicalTask → LogicalTask
update_event (in_current i) f l = in_current_events (modify_at i f) l
update_event (in_history k i) f l = record l {
  inclusion_history = modify_at k (in_inclusion (modify_at i f)) l.inclusion_history;
}

-- Reading through a reference that has gone throws, as reading a field of `undefined` does.
unfoldable pub fetch : EvidenceRef → Exec EvidenceRecord
fetch r = do
  l ← get_logical
  on_option (event_at r l) (throw "Cannot read properties of undefined") pure

unfoldable pub assign : EvidenceRef → (EvidenceRecord → EvidenceRecord) → Exec Unit
assign r f = modify_logical (update_event r f)

-- The references to the events of the current inclusion, in order.
unfoldable pub current_refs : LogicalTask → List EvidenceRef
current_refs l = map in_current (positions 0 (inclusion_events l))

unfoldable pub history_ref : Hex → ℕ → List InclusionSnapshot → Option EvidenceRef
history_ref id k [] = none
history_ref id k (inclusion ∷ rest) =
    let later = history_ref id (suc k) rest in
    elim (find_index (λ e. same_hex e.expected_evidence_id id) 0 inclusion.events) [
      | some i ↦ some (in_history k i)
      | none ↦ later
    ]

-- findEvidence: the current inclusion first, then the history
unfoldable pub find_evidence : Hex → LogicalTask → Option EvidenceRef
find_evidence id l =
    elim (find_index (λ e. same_hex e.expected_evidence_id id) 0 (inclusion_events l)) [
      | some i ↦ some (in_current i)
      | none ↦ history_ref id 0 l.inclusion_history
    ]

-- The object that an epoch belongs to: the task's submission, or one evidence record.
pub data EpochOwner : Type 0 where
  of_task : EpochOwner
  of_evidence : EvidenceRef → EpochOwner

-- Assigning to the fields of an epoch is seen by its owner while the owner still holds that object.
unfoldable pub replace_epoch : AttemptEpoch → Option AttemptEpoch → Option AttemptEpoch
replace_epoch epoch none = none
replace_epoch epoch (some held) = if held.object == epoch.object then some epoch else some held

unfoldable pub assign_epoch : EpochOwner → AttemptEpoch → LogicalTask → LogicalTask
assign_epoch of_task epoch l = record l {
  submission_epoch = replace_epoch epoch l.submission_epoch;
}
assign_epoch (of_evidence r) epoch l =
    update_event r (λ e. record e { application_epoch = replace_epoch epoch e.application_epoch }) l

-- purpose.kind === 'APPLICATION' ? purpose.evidenceId.toLowerCase() : undefined
unfoldable pub application_id : Option InFlightEnvelope → Option Hex
application_id none = none
application_id (some envelope) = elim envelope.purpose [
  | submission ids hash ↦ none
  | application id ↦ some id
]
