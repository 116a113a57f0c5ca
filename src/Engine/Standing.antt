-- ===== src/Engine/Standing.antt =====
-- What worker/engine.ts does while something needs the operator.
use cr3d_x.Base.{String, str_eq, ◌≡◌, refl, ap, ◌∙◌, true, false, none, some}
use cr3d_x.Types.{WorkerTask}
use cr3d_x.Types.Port.{ok, threw, Env}
use cr3d_x.Exec.{World, pure, throw, ◌>>=◌, on_option, when, require}
use cr3d_x.Exec.Keeps.{Keeps-continue}
use cr3d_x.State.{read_state, unresolved_lane}
use cr3d_x.State.Reading.{read_state-Keeps, unresolved_lane-Keeps}
use cr3d_x.State.Values.{files_self, read_state-value}
use cr3d_x.Engine.Commands.{
  has_attention, tick_free, tick, lane_message, advance_owner, advance_task,
}

module _ (env : Env) where
  tick_free-same : (w : World) → has_attention w.state ≡ true → (tick_free env w).1 ≡ w
  unfolding tick_free ◌>>=◌ when pure
  tick_free-same w h =
      let same = (read_state-Keeps {P = λ v. v ≡ w}).at w refl in
      Keeps-continue (λ v. v ≡ w) (read_state w).0 _ (read_state w).1 same
        λ state e.
          let found = (read_state-value w).at w (files_self w) state e in
          rw (ap has_attention found.1 ∙ h) same

  -- While a reason for global attention stands and the lane is free, a tick changes nothing and asks
  -- nothing of the chains.
  pub tick-attention :
      (w : World)
      → (unresolved_lane env w).0 ≡ ok none
      → has_attention w.state ≡ true
      → (tick env w).1 ≡ w
  unfolding tick ◌>>=◌ on_option
  tick-attention w free h =
      let same = (unresolved_lane-Keeps {P = λ v. v ≡ w} env).at w refl in
      Keeps-continue (λ v. v ≡ w) (unresolved_lane env w).0 _ (unresolved_lane env w).1 same
        λ lane e.
          let none_found : lane ≡ none = cc (e, free) in
          rw none_found (
            tick_free-same (unresolved_lane env w).1
              (ap (λ (v : World). has_attention v.state) same ∙ h)
            ∙ same)

  advance_owner-blocked :
      (id : String) (owner : WorkerTask) (w : World)
      → str_eq owner.task_id id ≡ false
      → advance_owner env id owner w ≡ (threw (lane_message owner), w)
  unfolding advance_owner ◌>>=◌ require throw pure
  advance_owner-blocked id owner w other = rw other refl

  -- A task cannot be advanced while another holds the lane: the command throws, and nothing has changed.
  pub advance_task-blocked :
      (id : String) (owner : WorkerTask) (w : World)
      → (unresolved_lane env w).0 ≡ ok (some owner)
      → str_eq owner.task_id id ≡ false
      → advance_task env id w ≡ (threw (lane_message owner), w)
  unfolding advance_task ◌>>=◌ on_option
  advance_task-blocked id owner w held other =
      let same = (unresolved_lane-Keeps {P = λ v. v ≡ w} env).at w refl in
      rw held (rw same (advance_owner-blocked id owner w other))
