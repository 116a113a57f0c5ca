-- ===== src/Engine/Progress/Presence.antt =====
-- References to evidence records of worker/engine.ts that do not go: no method takes a record out of a task.
use cr3d_x.Base.{
  ℕ, String, zero, suc, ◌+◌, ◌≡◌, refl, ap, subst, Bool, true, Option, none, some, List, [], ◌∷◌,
  map, arith, All, get_elem?, modify_at, positions, sym, ◌∙◌,
}
use cr3d_x.Types.{
  Hex, Transition, SubmissionState, ConfirmedOperation, EvidenceRecord, InclusionSnapshot,
  LogicalTask,
}
use cr3d_x.Policy.{is_some}
use cr3d_x.Engine.Objects.{
  EvidenceRef, in_current, in_history, inclusion_events, event_at, in_inclusion, in_current_events,
  update_event, current_refs, find_evidence,
}
use cr3d_x.Engine.Lookup.{find_evidence-some}
use cr3d_x.Engine.Semantic.{reset_unseen}
use cr3d_x.Engine.Marks.{push_transition, put_submission, put_attention}
use cr3d_x.Engine.Confirm.{push_operation}

-- There is a record where the reference points.
abbrev pub has_event : EvidenceRef → LogicalTask → Bool
has_event r l = is_some (event_at r l)

-- `f` takes no record out of a task, and adds none.
pub record KeepsEvents (f : LogicalTask → LogicalTask) : Type 0 where
  pub at : (l : LogicalTask) (r : EvidenceRef) → has_event r (f l) ≡ has_event r l

-- What `event_at` does on an inclusion that may be missing.
abbrev event_in : ℕ → Option InclusionSnapshot → Option EvidenceRecord
event_in i o = elim o [ none ↦ none | some inclusion ↦ get_elem? inclusion.events i ]

abbrev events_of : Option InclusionSnapshot → List EvidenceRecord
events_of o = elim o [ none ↦ [] | some inclusion ↦ inclusion.events ]

abbrev in_option :
    (List EvidenceRecord → List EvidenceRecord)
    → Option InclusionSnapshot
    → Option InclusionSnapshot
unfolding in_inclusion
in_option f o = elim o [ none ↦ none | some inclusion ↦ some (in_inclusion f inclusion) ]

module _ {A : Type 0} where
  is_some-modify_at :
      (i j : ℕ) (f : A → A) (xs : List A)
      → is_some (get_elem? (modify_at i f xs) j) ≡ is_some (get_elem? xs j)
  unfolding modify_at is_some
  is_some-modify_at i j f [] = refl
  is_some-modify_at zero zero f (x ∷ xs) = refl
  is_some-modify_at zero (suc j) f (x ∷ xs) = refl
  is_some-modify_at (suc i) zero f (x ∷ xs) = refl
  is_some-modify_at (suc i) (suc j) f (x ∷ xs) = is_some-modify_at i j f xs

  is_some-map :
      (j : ℕ) (f : A → A) (xs : List A)
      → is_some (get_elem? (map f xs) j) ≡ is_some (get_elem? xs j)
  unfolding is_some
  is_some-map j f [] = refl
  is_some-map zero f (x ∷ xs) = refl
  is_some-map (suc j) f (x ∷ xs) = is_some-map j f xs

KeepsEvents-other :
    (f : LogicalTask → LogicalTask)
    → ((l : LogicalTask) → (f l).current_inclusion ≡ l.current_inclusion)
    → ((l : LogicalTask) → (f l).inclusion_history ≡ l.inclusion_history)
    → KeepsEvents f
unfolding event_at inclusion_events
KeepsEvents-other f current history = record { at = same }
  where
    same : (l : LogicalTask) (r : EvidenceRef) → has_event r (f l) ≡ has_event r l
    same l (in_current i) = ap (λ o. is_some (get_elem? (events_of o) i)) (current l)
    same l (in_history k i) = ap (λ h. is_some (event_in i (get_elem? h k))) (history l)

pub KeepsEvents-push_transition : (t : Transition) → KeepsEvents (push_transition t)
unfolding push_transition
KeepsEvents-push_transition t = KeepsEvents-other _ (λ l. refl) (λ l. refl)

pub KeepsEvents-put_submission : (to : SubmissionState) → KeepsEvents (put_submission to)
unfolding put_submission
KeepsEvents-put_submission to = KeepsEvents-other _ (λ l. refl) (λ l. refl)

pub KeepsEvents-put_attention : (reason : String) → KeepsEvents (put_attention reason)
unfolding put_attention
KeepsEvents-put_attention reason = KeepsEvents-other _ (λ l. refl) (λ l. refl)

pub KeepsEvents-push_operation :
    (operation : ConfirmedOperation) → KeepsEvents (push_operation operation)
unfolding push_operation
KeepsEvents-push_operation operation = KeepsEvents-other _ (λ l. refl) (λ l. refl)

-- Events changed in place, in the current inclusion or in one of the history.
module _ (f : List EvidenceRecord → List EvidenceRecord)
    (same : (j : ℕ) (xs : List EvidenceRecord)
      → is_some (get_elem? (f xs) j) ≡ is_some (get_elem? xs j)) where
  pub KeepsEvents-in_current_events : KeepsEvents (in_current_events f)
  unfolding in_current_events event_at inclusion_events in_inclusion
  KeepsEvents-in_current_events = record { at = kept }
    where
      current :
          (i : ℕ) (o : Option InclusionSnapshot)
          → is_some (get_elem? (events_of (in_option f o)) i) ≡ is_some (get_elem? (events_of o) i)
      current i none = refl
      current i (some inclusion) = same i inclusion.events

      kept :
          (l : LogicalTask) (r : EvidenceRef) → has_event r (in_current_events f l) ≡ has_event r l
      kept l (in_current i) = current i l.current_inclusion
      kept l (in_history k i) = refl

  in_one :
      (k j i : ℕ) (history : List InclusionSnapshot)
      → is_some (event_in i (get_elem? (modify_at k (in_inclusion f) history) j))
        ≡ is_some (event_in i (get_elem? history j))
  unfolding modify_at in_inclusion is_some
  in_one k j i [] = refl
  in_one zero zero i (c ∷ cs) = same i c.events
  in_one zero (suc j) i (c ∷ cs) = refl
  in_one (suc k) zero i (c ∷ cs) = refl
  in_one (suc k) (suc j) i (c ∷ cs) = in_one k j i cs

pub KeepsEvents-update_event :
    (q : EvidenceRef) (f : EvidenceRecord → EvidenceRecord) → KeepsEvents (update_event q f)
unfolding update_event event_at inclusion_events
KeepsEvents-update_event (in_current i) f =
    KeepsEvents-in_current_events (modify_at i f) (λ j xs. is_some-modify_at i j f xs)
KeepsEvents-update_event (in_history k i) f = record { at = kept }
  where
    kept :
        (l : LogicalTask) (r : EvidenceRef)
        → has_event r (update_event (in_history k i) f l) ≡ has_event r l
    kept l (in_current j) = refl
    kept l (in_history m j) =
        in_one (modify_at i f) (λ n xs. is_some-modify_at i n f xs) k m j l.inclusion_history

pub KeepsEvents-reset_unseen : KeepsEvents (in_current_events (map reset_unseen))
KeepsEvents-reset_unseen =
    KeepsEvents-in_current_events (map reset_unseen) (λ j xs. is_some-map j reset_unseen xs)

All-map-positions :
    {A : Type 0} (C : EvidenceRef → Type 0) (i : ℕ) (xs : List A)
    → ((j : ℕ) → is_some (get_elem? xs j) ≡ true → C (in_current (i + j)))
    → All C (map in_current (positions i xs))
unfolding is_some
All-map-positions C i [] h = tt
All-map-positions C i (x ∷ xs) h = (
  subst (λ n. C (in_current n)) (omega arith) (h 0 refl),
  All-map-positions C (suc i) xs (λ j e. subst (λ n. C (in_current n)) (omega arith) (h (suc j) e)),
)

-- The references to the current events point to records.
pub current_refs-have :
    {s : EvidenceRef → Bool} (l : LogicalTask)
    → ((r : EvidenceRef) → has_event r l ≡ s r)
    → All (λ r. s r ≡ true) (current_refs l)
unfolding current_refs event_at
current_refs-have {s} l present =
    All-map-positions (λ r. s r ≡ true) 0 (inclusion_events l)
      λ j e.
        let at : j ≡ 0 + j = omega arith in
        subst (λ n. s (in_current n) ≡ true) at (sym (present (in_current j)) ∙ e)

-- The record that `findEvidence` finds is there.
pub find_evidence-has :
    (id : Hex) (l : LogicalTask) (r : EvidenceRef)
    → find_evidence id l ≡ some r
    → has_event r l ≡ true
unfolding is_some
find_evidence-has id l r e = let (a, here, _) = find_evidence-some id l r e in rw here refl
