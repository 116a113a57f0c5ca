-- ===== src/State/Directory.antt =====
-- The task directory of worker/state.ts: a write changes one file, a listing returns the files, and the
-- lane is read off the listing.
use mathlib.Core.Bool.{false≢true}
use cr3d_x.Base.{
  String, str_eq, eq_iff, ◌≡◌, ◌≢◌, sym, ◌∙◌, subst, inl, inr, Bool, true, false, some, List, [],
  ◌∷◌, arith, All, find, Bool-cases,
}
use cr3d_x.Types.{WorkerTask}
use cr3d_x.Policy.{is_some}
use cr3d_x.State.{without, insert_sorted, put_task}

-- No two files have one name.
abbrev pub Distinct : List WorkerTask → Type 0
Distinct [] = Unit {0}
Distinct (t ∷ ts) = All (λ u. u.task_id ≢ t.task_id) ts × Distinct ts

-- The task holds no envelope.
abbrev pub IsIdle : WorkerTask → Type 0
IsIdle t = is_some t.in_flight ≡ false

-- If the task holds an envelope, it is the task `owner`.
abbrev pub Owns : String → WorkerTask → Type 0
Owns owner t = is_some t.in_flight ≡ true → t.task_id ≡ owner

module _ (P : WorkerTask → Type 0) where
  pub All-insert_sorted :
      (t : WorkerTask) (ts : List WorkerTask) → P t → All P ts → All P (insert_sorted t ts)
  unfolding insert_sorted
  All-insert_sorted t [] p h = (p, tt)
  All-insert_sorted t (u ∷ us) p h = ground (arith, All-insert_sorted t us p h.1)

  All-without : (id : String) (ts : List WorkerTask) → All P ts → All P (without id ts)
  unfolding without
  All-without id [] h = tt
  All-without id (t ∷ ts) h = ground (arith, All-without id ts h.1)

  pub All-put_task :
      (t : WorkerTask) (ts : List WorkerTask) → P t → All P ts → All P (put_task t ts)
  unfolding put_task
  All-put_task t ts p h = All-insert_sorted t (without t.task_id ts) p (All-without t.task_id ts h)

  pub All-find :
      (test : WorkerTask → Bool) (ts : List WorkerTask) (t : WorkerTask)
      → All P ts
      → find test ts ≡ some t
      → P t
  All-find test [] t h e = cc
  All-find test (u ∷ us) t h e = elim (Bool-cases (test u)) [
    | inl hit ↦ subst P (ground arith) h.0
    | inr miss ↦ All-find test us t h.1 (ground arith)
  ]

absent-without : (id : String) (ts : List WorkerTask) → All (λ u. u.task_id ≢ id) (without id ts)
unfolding without
absent-without id [] = tt
absent-without id (t ∷ ts) = elim (Bool-cases (str_eq t.task_id id)) [
  | inl same ↦ rw same (absent-without id ts)
  | inr other ↦
      rw other (λ e. false≢true (sym other ∙ (eq_iff t.task_id id).1 e), absent-without id ts)
]

Distinct-without : (id : String) (ts : List WorkerTask) → Distinct ts → Distinct (without id ts)
unfolding without
Distinct-without id [] d = tt
Distinct-without id (t ∷ ts) d = elim (Bool-cases (str_eq t.task_id id)) [
  | inl same ↦ rw same (Distinct-without id ts d.1)
  | inr other ↦ rw other (All-without _ id ts d.0, Distinct-without id ts d.1)
]

Distinct-insert_sorted :
    (t : WorkerTask) (ts : List WorkerTask)
    → All (λ u. u.task_id ≢ t.task_id) ts
    → Distinct ts
    → Distinct (insert_sorted t ts)
unfolding insert_sorted
Distinct-insert_sorted t [] a d = (tt, tt)
Distinct-insert_sorted t (u ∷ us) a d = ground (
  arith,
  Distinct-insert_sorted t us a.1 d.1,
  All-insert_sorted (λ v. v.task_id ≢ u.task_id) t us (λ e. a.0 (sym e)) d.0,
)

pub Distinct-put_task :
    (t : WorkerTask) (ts : List WorkerTask) → Distinct ts → Distinct (put_task t ts)
unfolding put_task
Distinct-put_task t ts d =
    Distinct-insert_sorted t (without t.task_id ts) (absent-without t.task_id ts)
      (Distinct-without t.task_id ts d)
