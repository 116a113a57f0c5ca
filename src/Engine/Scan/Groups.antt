-- ===== src/Engine/Scan/Groups.antt =====
-- How `scanOnce` of worker/engine.ts groups the candidates of a window by their transaction.
use cr3d_x.Base.{
  String, str_eq, eq_iff, ◌≡◌, refl, sym, ap, ◌∙◌, true, false, List, [], ◌∷◌, ◌++◌, inl, inr,
  Bool-cases, keep_if, lower, if◌then◌else◌,
}
use mathlib.Core.Bool.{false≢true}
use mathlib.Core.List.{append-nil, append_assoc}
use cr3d_x.Types.Port.{CandidateLogRef}
use cr3d_x.Engine.Candidates.{add_candidate, group_from, by_transaction}

-- The candidates under a key of the map; none where the key is missing.
abbrev pub refs_of : String → List (String × List CandidateLogRef) → List CandidateLogRef
refs_of key [] = []
refs_of key ((k, refs) ∷ groups) =
    let rest = refs_of key groups in if str_eq k key then refs else rest

-- The candidates of one transaction, in order.
abbrev pub of_transaction : String → List CandidateLogRef → List CandidateLogRef
of_transaction key candidates = keep_if (λ c. str_eq (lower c.transaction_hash) key) candidates

differs_from : (k l key : String) → str_eq k key ≡ true → str_eq k l ≡ false → str_eq l key ≡ false
differs_from k l key same other = elim (Bool-cases (str_eq l key)) [
  | inl hit ↦
      absurd (
        false≢true
          (sym other ∙ (eq_iff k l).1 ((eq_iff k key).0 same ∙ sym ((eq_iff l key).0 hit))))
  | inr miss ↦ miss
]

refs_of-add_candidate :
    (key : String) (c : CandidateLogRef) (groups : List (String × List CandidateLogRef))
    → refs_of key (add_candidate c groups) ≡ refs_of key groups ++ of_transaction key (c ∷ [])
unfolding add_candidate
refs_of-add_candidate key c [] = refl
refs_of-add_candidate key c ((k, refs) ∷ groups) =
    elim (Bool-cases (str_eq k (lower c.transaction_hash))) [
      | inl same ↦
          let agrees : str_eq (lower c.transaction_hash) key ≡ str_eq k key =
            ap (λ l. str_eq l key) (sym ((eq_iff k (lower c.transaction_hash)).0 same)) in
          elim (Bool-cases (str_eq k key)) [
            | inl hit ↦ rw same (rw agrees (rw hit refl))
            | inr miss ↦ rw same (rw agrees (rw miss (sym (append-nil (refs_of key groups)))))
          ]
      | inr other ↦ elim (Bool-cases (str_eq k key)) [
        | inl hit ↦ rw other (
            rw (differs_from k (lower c.transaction_hash) key hit other)
              (rw hit (sym (append-nil refs))))
        | inr miss ↦ rw other (rw miss (refs_of-add_candidate key c groups))
      ]
    ]

of_transaction-cons :
    (key : String) (c : CandidateLogRef) (cs : List CandidateLogRef)
    → of_transaction key (c ∷ []) ++ of_transaction key cs ≡ of_transaction key (c ∷ cs)
of_transaction-cons key c cs = elim (Bool-cases (str_eq (lower c.transaction_hash) key)) [
  | inl hit ↦ rw hit refl
  | inr miss ↦ rw miss refl
]

refs_of-group_from :
    (key : String) (cs : List CandidateLogRef) (groups : List (String × List CandidateLogRef))
    → refs_of key (group_from groups cs) ≡ refs_of key groups ++ of_transaction key cs
unfolding group_from
refs_of-group_from key [] groups = sym (append-nil (refs_of key groups))
refs_of-group_from key (c ∷ cs) groups =
    refs_of-group_from key cs (add_candidate c groups)
    ∙ ap (λ v. v ++ of_transaction key cs) (refs_of-add_candidate key c groups)
    ∙ append_assoc (refs_of key groups) (of_transaction key (c ∷ [])) (of_transaction key cs)
    ∙ ap (λ v. refs_of key groups ++ v) (of_transaction-cons key c cs)

-- Whatever the candidates, the group of a transaction is exactly its candidates, each as often as it
-- occurs and in their order.
pub by_transaction-refs_of :
    (key : String) (candidates : List CandidateLogRef)
    → refs_of key (by_transaction candidates) ≡ of_transaction key candidates
unfolding by_transaction
by_transaction-refs_of key candidates = refs_of-group_from key candidates []
