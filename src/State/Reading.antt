-- ===== src/State/Reading.antt =====
-- The reads of worker/state.ts: what they keep, and what they return.
use cr3d_x.Base.{
  String, ◌≡◌, refl, sym, ap, str_eq, ◌==◌, ◌∙◌, subst, Option, none, some, List, [], ◌∷◌, arith,
  All, keep_if, find,
}
use cr3d_x.Types.{worker_schema_version, WorkerTask}
use cr3d_x.Types.Port.{ok, Env}
use cr3d_x.Policy.{is_some}
use cr3d_x.Exec.{World, Exec, pure, throw, gets, on_option, traverse, require}
use cr3d_x.Exec.Keeps.{Keeps, keeps_rules}
use cr3d_x.Exec.Outcomes.{bind-eq-ok}
use cr3d_x.State.{
  assert_established, read_state, check_task_path, check_envelope, check_task, read_task,
  list_tasks, in_flight_tasks, single_owner, unresolved_lane,
}
use cr3d_x.State.Directory.{IsIdle, All-find}

module _ {P : World → Type 0} where
  pub assert_established-Keeps : Keeps P assert_established
  unfolding assert_established
  assert_established-Keeps = search keeps_rules depth 12

  pub read_state-Keeps : Keeps P read_state
  unfolding read_state
  read_state-Keeps = search (keeps_rules, assert_established-Keeps) depth 12

  pub check_task_path-Keeps : (id : String) → Keeps P (check_task_path id)
  unfolding check_task_path
  check_task_path-Keeps id = search keeps_rules depth 12

module _ {P : World → Type 0} (env : Env) where
  check_task-Keeps : (task : WorkerTask) → Keeps P (check_task env task)
  unfolding check_task check_envelope
  check_task-Keeps task = search keeps_rules depth 12

  pub read_task-Keeps : (id : String) → Keeps P (read_task env id)
  unfolding read_task
  read_task-Keeps id = search (keeps_rules, check_task_path-Keeps, check_task-Keeps) depth 12

  pub list_tasks-Keeps : Keeps P (list_tasks env)
  unfolding list_tasks
  list_tasks-Keeps = search (keeps_rules, assert_established-Keeps, check_task-Keeps) depth 12

  single_owner-Keeps : (owners : List WorkerTask) → Keeps P (single_owner env owners)
  unfolding single_owner
  single_owner-Keeps [] = search keeps_rules
  single_owner-Keeps (t ∷ []) = search keeps_rules
  single_owner-Keeps (t ∷ u ∷ ts) = search keeps_rules

  pub unresolved_lane-Keeps : Keeps P (unresolved_lane env)
  unfolding unresolved_lane in_flight_tasks
  unresolved_lane-Keeps = search (keeps_rules, list_tasks-Keeps, single_owner-Keeps) depth 12

module _ {A : Type 0} (f : A → Exec A)
    (same : (a : A) (w : World) (b : A) → (f a w).0 ≡ ok b → b ≡ a) where
  traverse-same : (xs : List A) (w : World) {ys : List A} → (traverse f xs w).0 ≡ ok ys → ys ≡ xs
  unfolding traverse pure
  traverse-same [] w e = cc
  traverse-same (x ∷ xs) w e =
      let (y, ey, er) = bind-eq-ok (f x) _ w e in
      let (zs, ez, ep) = bind-eq-ok (traverse f xs) _ (f x w).1 er in
      cc (same x w y ey, traverse-same xs (f x w).1 ez)

module _ (env : Env) where
  check_envelope-same :
      (task : WorkerTask) (w : World) {t : WorkerTask}
      → (check_envelope env task w).0 ≡ ok t
      → t ≡ task
  unfolding check_envelope on_option pure throw
  check_envelope-same task w e = ground arith

  check_task-same :
      (task : WorkerTask) (w : World) (t : WorkerTask) → (check_task env task w).0 ≡ ok t → t ≡ task
  unfolding check_task
  check_task-same task w t e =
      let (_, _, er) =
        bind-eq-ok (require (task.schema_version == worker_schema_version) _) _ w e in
      check_envelope-same task _ er

  -- A listing that returns has the files of the directory.
  pub list_tasks-same :
      (w : World) {ts : List WorkerTask} → (list_tasks env w).0 ≡ ok ts → ts ≡ w.tasks
  unfolding list_tasks gets
  list_tasks-same w e =
      let (_, _, el) = bind-eq-ok assert_established _ w e in
      let (us, eu, et) = bind-eq-ok (gets (λ v. v.tasks)) _ (assert_established w).1 el in
      let same = (assert_established-Keeps {P = λ v. v ≡ w}).at w refl in
      cc (
        traverse-same (check_task env) check_task-same us _ et,
        eu,
        ap (λ (v : World). v.tasks) same,
      )

  single_owner-none :
      (us : List WorkerTask) (w : World) → (single_owner env us w).0 ≡ ok none → us ≡ []
  unfolding single_owner pure throw
  single_owner-none [] w e = refl
  single_owner-none (u ∷ []) w e = cc
  single_owner-none (u ∷ v ∷ us) w e = cc

  single_owner-some :
      (us : List WorkerTask) (w : World) {t : WorkerTask}
      → (single_owner env us w).0 ≡ ok (some t)
      → us ≡ t ∷ []
  unfolding single_owner pure throw
  single_owner-some [] w e = cc
  single_owner-some (u ∷ []) w e = cc
  single_owner-some (u ∷ v ∷ us) w e = cc

  IsIdle-keep_if :
      (ts : List WorkerTask) → keep_if (λ t. is_some t.in_flight) ts ≡ [] → All IsIdle ts
  IsIdle-keep_if [] e = tt
  IsIdle-keep_if (t ∷ ts) e = ground (arith, IsIdle-keep_if ts)

  in_flight_tasks-same :
      (w : World) {us : List WorkerTask}
      → (in_flight_tasks env w).0 ≡ ok us
      → us ≡ keep_if (λ t. is_some t.in_flight) w.tasks
  unfolding in_flight_tasks pure
  in_flight_tasks-same w e =
      let (ts, et, ep) = bind-eq-ok (list_tasks env) _ w e in cc (list_tasks-same w et)

  -- A free lane: no file holds an envelope.
  pub unresolved_lane-none : (w : World) → (unresolved_lane env w).0 ≡ ok none → All IsIdle w.tasks
  unfolding unresolved_lane
  unresolved_lane-none w e =
      let (us, eu, es) = bind-eq-ok (in_flight_tasks env) _ w e in
      IsIdle-keep_if w.tasks (sym (in_flight_tasks-same w eu) ∙ single_owner-none us _ es)

  -- A lane that is held: one file holds an envelope, and it is the owner.
  pub unresolved_lane-owner :
      (w : World) {t : WorkerTask}
      → (unresolved_lane env w).0 ≡ ok (some t)
      → keep_if (λ u. is_some u.in_flight) w.tasks ≡ t ∷ []
  unfolding unresolved_lane
  unresolved_lane-owner w e =
      let (us, eu, es) = bind-eq-ok (in_flight_tasks env) _ w e in
      sym (in_flight_tasks-same w eu) ∙ single_owner-some us _ es

  All-keep_if :
      (P : WorkerTask → Type 0) (ts : List WorkerTask)
      → All P ts
      → All P (keep_if (λ t. is_some t.in_flight) ts)
  All-keep_if P [] h = tt
  All-keep_if P (t ∷ ts) h = ground (arith, All-keep_if P ts h.1)

  -- The owner of the lane is a file of the directory.
  pub unresolved_lane-some :
      (P : WorkerTask → Type 0) (w : World) {t : WorkerTask}
      → (unresolved_lane env w).0 ≡ ok (some t)
      → All P w.tasks
      → P t
  unfolding unresolved_lane
  unresolved_lane-some P w e h =
      (subst (All P) (unresolved_lane-owner w e) (All-keep_if P w.tasks h)).0

  found :
      (P : WorkerTask → Type 0) (o : Option WorkerTask) (v : World) {t : WorkerTask}
      → ((u : WorkerTask) → o ≡ some u → P u)
      → (on_option o (throw "ENOENT") (check_task env) v).0 ≡ ok t
      → P t
  unfolding on_option throw
  found P none v h e = cc
  found P (some u) v h e = subst P (sym (check_task-same u v _ e)) (h u refl)

  -- A task that was read is a file of the directory.
  pub read_task-some :
      (P : WorkerTask → Type 0) (id : String) (w : World) {t : WorkerTask}
      → (read_task env id w).0 ≡ ok t
      → All P w.tasks
      → P t
  unfolding read_task gets
  read_task-some P id w e h =
      let (_, _, eg) = bind-eq-ok (check_task_path id) _ w e in
      let (us, eu, ef) = bind-eq-ok (gets (λ v. v.tasks)) _ (check_task_path id w).1 eg in
      let same = (check_task_path-Keeps {P = λ v. v ≡ w} id).at w refl in
      let files : All P us = subst (All P) (cc (eu, ap (λ (v : World). v.tasks) same)) h in
      found P (find (λ t. str_eq t.task_id id) us) _
        (λ u hit. All-find P (λ t. str_eq t.task_id id) us u files hit) ef
