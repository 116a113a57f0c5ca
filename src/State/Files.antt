-- ===== src/State/Files.antt =====
-- The files of the task directory of worker/state.ts before and after a write.
use cr3d_x.Base.{
  String, str_eq, eq_iff, ◌≡◌, refl, sym, ◌∙◌, subst, false, Option, none, some, List, [], ◌∷◌,
  arith, find, Bool-cases, inl, inr,
}
use cr3d_x.Types.{WorkerTask}
use cr3d_x.State.{without, insert_sorted, put_task}

-- The file of a task's name.
abbrev file_of : String → List WorkerTask → Option WorkerTask
file_of id tasks = find (λ t. str_eq t.task_id id) tasks

find-without :
    (id other : String) (ts : List WorkerTask)
    → str_eq id other ≡ false
    → file_of other (without id ts) ≡ file_of other ts
unfolding without
find-without id other [] n = refl
find-without id other (t ∷ ts) n = elim (Bool-cases (str_eq t.task_id id)) [
  | inl same ↦
      let differs : str_eq t.task_id other ≡ false =
        subst (λ v. str_eq v other ≡ false) (sym ((eq_iff t.task_id id).0 same)) n in
      ground (arith, same, differs, find-without id other ts n)
  | inr differs ↦ ground (arith, differs, find-without id other ts n)
]

gone-without : (id : String) (ts : List WorkerTask) → file_of id (without id ts) ≡ none
unfolding without
gone-without id [] = refl
gone-without id (t ∷ ts) = ground (arith, gone-without id ts)

find-insert_sorted_other :
    (t : WorkerTask) (other : String) (ts : List WorkerTask)
    → str_eq t.task_id other ≡ false
    → file_of other (insert_sorted t ts) ≡ file_of other ts
unfolding insert_sorted
find-insert_sorted_other t other [] n = ground arith
find-insert_sorted_other t other (u ∷ us) n = ground (arith, find-insert_sorted_other t other us n)

find-insert_sorted :
    (t : WorkerTask) (ts : List WorkerTask)
    → file_of t.task_id ts ≡ none
    → file_of t.task_id (insert_sorted t ts) ≡ some t
unfolding insert_sorted
find-insert_sorted t [] e = ground (arith, (eq_iff t.task_id t.task_id).1 refl)
find-insert_sorted t (u ∷ us) e =
    ground (arith, (eq_iff t.task_id t.task_id).1 refl, find-insert_sorted t us)

-- After a write, the file of the task is the task, and every other file is as it was.
put_task-file_of :
    (t : WorkerTask) (ts : List WorkerTask) (other : String)
    → str_eq t.task_id other ≡ false
    → (file_of t.task_id (put_task t ts) ≡ some t)
      × (file_of other (put_task t ts) ≡ file_of other ts)
unfolding put_task
put_task-file_of t ts other n = (
  find-insert_sorted t (without t.task_id ts) (gone-without t.task_id ts),
  find-insert_sorted_other t other (without t.task_id ts) n ∙ find-without t.task_id other ts n,
)
