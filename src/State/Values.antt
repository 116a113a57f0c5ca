-- ===== src/State/Values.antt =====
-- What the reads of worker/state.ts return, and that they leave the files.
use cr3d_x.Base.{ℕ, ◌≡◌, refl, ◌∙◌, ◌≤◌, arith}
use cr3d_x.Types.Port.{Result, ok, Env}
use cr3d_x.Exec.{World, gets, call}
use cr3d_x.Exec.Keeps.{IsCallProof}
use cr3d_x.Exec.Triples.{
  Ensures, Ensures-bind, Ensures-pure, Ensures-kept, Ensures-require, Ensures-given,
}
use cr3d_x.State.{read_state, list_tasks}
use cr3d_x.State.Reading.{assert_established-Keeps, list_tasks-Keeps, list_tasks-same}

-- The files are those of `w`, and no call has been taken back.
pub record HasFiles (w v : World) : Type 0 where
  pub state : v.state ≡ w.state
  pub tasks : v.tasks ≡ w.tasks
  pub later : w.calls ≤ v.calls

pub files_self : (w : World) → HasFiles w w
files_self w = record { state = refl; tasks = refl; later = omega arith }

pub files-calls : (w : World) → IsCallProof (HasFiles w)
files-calls w = record {
  at = λ v h. record { state = h.state; tasks = h.tasks; later = omega (arith, h.later) };
}

-- A call of the outside that was made after `w` was answered by `a`.
pub record AnswersSince {A : Type 0} (w : World) (f : ℕ → Result A) (a : A) : Type 0 where
  pub at : ℕ
  pub later : w.calls ≤ at
  pub answered : f at ≡ ok a

pub answer-Ensures :
    {A : Type 0} (w : World) (f : ℕ → Result A)
    → Ensures (HasFiles w) (call f) (λ a v. HasFiles w v × AnswersSince w f a)
unfolding call
answer-Ensures w f = record {
  at = λ v h a e. ((files-calls w).at v h, record { at = v.calls; later = h.later; answered = e });
}

pub read_state-value :
    (w : World) → Ensures (HasFiles w) read_state (λ s v. HasFiles w v × (s ≡ w.state))
unfolding read_state gets
read_state-value w = Ensures-bind _ _ (Ensures-kept _ assert_established-Keeps) λ _.
    Ensures-bind _ _ (record { at = λ v h s e. (h, cc (e, h.state)) })
      λ s.
        Ensures-given _
          λ same. Ensures-bind _ _ (Ensures-require _ _) λ _. Ensures-pure s λ v h. (h.0, same)

module _ (env : Env) where
  pub list_tasks-Ensures :
      (w : World) → Ensures (HasFiles w) (list_tasks env) (λ ts v. HasFiles w v × (ts ≡ w.tasks))
  list_tasks-Ensures w = record {
    at = λ v h ts e.
        ((list_tasks-Keeps {P = HasFiles w} env).at v h, list_tasks-same env v e ∙ h.tasks);
  }
