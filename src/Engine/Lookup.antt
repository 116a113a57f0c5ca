-- ===== src/Engine/Lookup.antt =====
-- `findEvidence` of worker/engine.ts, as the one search of one list that the source writes.
use mathlib.Core.List.{flat_map}
use cr3d_x.Base.{
  ℕ, suc, ◌+◌, ◌≡◌, refl, sym, subst, ◌∙◌, Bool, Option, none, some, List, [], ◌∷◌, ◌++◌, arith,
  get_elem?, find, find_index, same_hex, Bool-cases, Option-cases, inl, inr,
}
use cr3d_x.Types.{Hex, EvidenceRecord, InclusionSnapshot, LogicalTask}
use cr3d_x.Engine.Objects.{
  EvidenceRef, in_current, in_history, inclusion_events, event_at, history_ref, find_evidence,
}

module _ {A : Type 0} (p : A → Bool) where
  -- The first hit of a list behind another one.
  find-append :
      (xs ys : List A)
      → find p (xs ++ ys) ≡ (elim (find p xs) [ none ↦ find p ys | some a ↦ some a ])
  find-append [] ys = refl
  find-append (x ∷ xs) ys = elim (Bool-cases (p x)) [
    | inl hit ↦ rw hit refl
    | inr miss ↦ rw miss (find-append xs ys)
  ]

  find-none : (i : ℕ) (xs : List A) → find_index p i xs ≡ none → find p xs ≡ none
  find-none i [] e = refl
  find-none i (x ∷ xs) e = ground (arith, find-none (suc i) xs)

  -- The position of the first hit, counted from `i`, is where it stands.
  find-some :
      (i : ℕ) (xs : List A) (n : ℕ)
      → find_index p i xs ≡ some n
      → (j : ℕ) × (n ≡ i + j) × (a : A) × (get_elem? xs j ≡ some a) × (find p xs ≡ some a)
  find-some i [] n e = cc
  find-some i (x ∷ xs) n e = elim (Bool-cases (p x)) [
    | inl hit ↦ (0, ground (arith, hit, e), x, refl, rw hit refl)
    | inr miss ↦
        let later : find_index p (suc i) xs ≡ some n = ground (arith, miss, e) in
        let (j, at, a, here, found) = find-some (suc i) xs n later in
        (suc j, omega (arith, at), a, here, rw miss found)
  ]

-- The events of the history, and the first of them with the id.
abbrev older_events : List InclusionSnapshot → List EvidenceRecord
older_events cs = flat_map (λ c. c.events) cs

abbrev pub has_id : Hex → EvidenceRecord → Bool
has_id id event = same_hex event.expected_evidence_id id

abbrev event_in : ℕ → Option InclusionSnapshot → Option EvidenceRecord
event_in i o = elim o [ none ↦ none | some inclusion ↦ get_elem? inclusion.events i ]

history_ref-none :
    (id : Hex) (k : ℕ) (cs : List InclusionSnapshot)
    → history_ref id k cs ≡ none
    → find (has_id id) (older_events cs) ≡ none
unfolding history_ref flat_map
history_ref-none id k [] e = refl
history_ref-none id k (c ∷ cs) e = elim (Option-cases (find_index (has_id id) 0 c.events)) [
  | inl miss ↦
      let later : history_ref id (suc k) cs ≡ none = sym (rw (history_ref, miss) refl) ∙ e in
      find-append (has_id id) c.events (older_events cs)
      ∙ rw (find-none (has_id id) 0 c.events miss) (history_ref-none id (suc k) cs later)
  | inr (i, hit) ↦
      let first : some (in_history k i) ≡ none = sym (rw (history_ref, hit) refl) ∙ e in absurd cc
]

history_ref-some :
    (id : Hex) (k : ℕ) (cs : List InclusionSnapshot) (r : EvidenceRef)
    → history_ref id k cs ≡ some r
    → (j i : ℕ) × (r ≡ in_history (k + j) i)
      × (a : EvidenceRecord) × (event_in i (get_elem? cs j) ≡ some a)
      × (find (has_id id) (older_events cs) ≡ some a)
unfolding history_ref flat_map
history_ref-some id k [] r e = cc
history_ref-some id k (c ∷ cs) r e = elim (Option-cases (find_index (has_id id) 0 c.events)) [
  | inl miss ↦
      let later : history_ref id (suc k) cs ≡ some r = sym (rw (history_ref, miss) refl) ∙ e in
      let (j, i, same, a, here, found) = history_ref-some id (suc k) cs r later in
      let shift : suc k + j ≡ k + suc j = omega arith in
      (
        suc j,
        i,
        subst (λ n. r ≡ in_history n i) shift same,
        a,
        here,
        find-append (has_id id) c.events (older_events cs)
            ∙ rw (find-none (has_id id) 0 c.events miss) found,
      )
  | inr (i, hit) ↦
      let first : some (in_history k i) ≡ some r = sym (rw (history_ref, hit) refl) ∙ e in
      let shift : k ≡ k + 0 = omega arith in
      let (j, at, a, here, found) = find-some (has_id id) 0 c.events i hit in
      let from_start : j ≡ i = omega (arith, at) in
      (
        0,
        i,
        subst (λ n. r ≡ in_history n i) shift cc,
        a,
        subst (λ n. get_elem? c.events n ≡ some a) from_start here,
        find-append (has_id id) c.events (older_events cs) ∙ rw found refl,
      )
]

-- The events of the current inclusion, and then of the earlier ones.
abbrev pub all_events : LogicalTask → List EvidenceRecord
all_events l = inclusion_events l ++ older_events l.inclusion_history

pub find_evidence-some :
    (id : Hex) (l : LogicalTask) (r : EvidenceRef)
    → find_evidence id l ≡ some r
    → (a : EvidenceRecord) × (event_at r l ≡ some a) × (find (has_id id) (all_events l) ≡ some a)
unfolding find_evidence event_at
find_evidence-some id l r e = elim (Option-cases (find_index (has_id id) 0 (inclusion_events l))) [
  | inl miss ↦
      let later : history_ref id 0 l.inclusion_history ≡ some r =
        sym (rw (find_evidence, miss) refl) ∙ e in
      let (j, i, same, a, here, found) = history_ref-some id 0 l.inclusion_history r later in
      let from_start : 0 + j ≡ j = omega arith in
      let at : in_history j i ≡ r = sym (subst (λ n. r ≡ in_history n i) from_start same) in
      (
        a,
        subst (λ q. event_at q l ≡ some a) at here,
        find-append (has_id id) (inclusion_events l) (older_events l.inclusion_history)
            ∙ rw (find-none (has_id id) 0 (inclusion_events l) miss) found,
      )
  | inr (i, hit) ↦
      let first : some (in_current i) ≡ some r = sym (rw (find_evidence, hit) refl) ∙ e in
      let (j, shift, a, here, found) = find-some (has_id id) 0 (inclusion_events l) i hit in
      let from_start : j ≡ i = omega (arith, shift) in
      let at : in_current i ≡ r = cc in
      (
        a,
        subst (λ q. event_at q l ≡ some a) at
            (subst (λ n. get_elem? (inclusion_events l) n ≡ some a) from_start here),
        find-append (has_id id) (inclusion_events l) (older_events l.inclusion_history)
            ∙ rw found refl,
      )
]

find_evidence-none :
    (id : Hex) (l : LogicalTask)
    → find_evidence id l ≡ none
    → find (has_id id) (all_events l) ≡ none
unfolding find_evidence
find_evidence-none id l e = elim (Option-cases (find_index (has_id id) 0 (inclusion_events l))) [
  | inl miss ↦
      let later : history_ref id 0 l.inclusion_history ≡ none =
        sym (rw (find_evidence, miss) refl) ∙ e in
      find-append (has_id id) (inclusion_events l) (older_events l.inclusion_history)
      ∙ rw (find-none (has_id id) 0 (inclusion_events l) miss)
          (history_ref-none id 0 l.inclusion_history later)
  | inr (i, hit) ↦
      let first : some (in_current i) ≡ none = sym (rw (find_evidence, hit) refl) ∙ e in absurd cc
]

-- The record that the found reference points to.
abbrev pub found_event : Hex → LogicalTask → Option EvidenceRecord
found_event id l = elim (find_evidence id l) [ none ↦ none | some r ↦ event_at r l ]

-- The record that `findEvidence` refers to is the first one with the id, in any case of its letters, among the
-- events of the current inclusion and then of the earlier inclusions, and it refers to none if there is none.
pub find_evidence-eq-find :
    (id : Hex) (l : LogicalTask) → found_event id l ≡ find (has_id id) (all_events l)
find_evidence-eq-find id l = elim (Option-cases (find_evidence id l)) [
  | inl miss ↦ rw (found_event, miss) (sym (find_evidence-none id l miss))
  | inr (r, hit) ↦
      let (a, here, found) = find_evidence-some id l r hit in
      rw (found_event, hit) (here ∙ sym found)
]
