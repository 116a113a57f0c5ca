-- ===== src/Engine/Crash/Runs.antt =====
-- The soundness of the directory over whole runs of worker/cli.ts.
use cr3d_x.Base.{String, List}
use cr3d_x.Types.Port.{Env}
use cr3d_x.Exec.{World, Exec}
use cr3d_x.Exec.Keeps.{Keeps}
use cr3d_x.State.Directory.{Owns}
use cr3d_x.Engine.Commands.{Command, run}
use cr3d_x.Engine.Invariants.{Rules, LaneRules}
use cr3d_x.Engine.Invariants.Scan.{StoreRules, scan_once-Keeps}
use cr3d_x.Engine.Invariants.Commands.{OpenRules, run-keeps}
use cr3d_x.Engine.Lane.Claims.{HasLane-claim_lane}
use cr3d_x.Engine.Lane.Run.{Owns-idle}
use cr3d_x.Engine.Crash.Safety.{
  IsSound, IsSound-Rules, IsSound-open_task, crash-claim_lane, IsSound-broadcast_exact,
}

-- Some task owns the lane, and every crash so far would have been safe.
abbrev pub IsRecoverable : World → Type 0
IsRecoverable w = (owner : String) × IsSound owner w

IsRecoverable-Keeps :
    {A : Type 0} {m : Exec A} → ((owner : String) → Keeps (IsSound owner) m) → Keeps IsRecoverable m
IsRecoverable-Keeps keeps = record { at = λ w h. (h.0, (keeps h.0).at w h.1) }

IsRecoverable-Rules : Rules IsRecoverable
IsRecoverable-Rules = record {
  calls = record { at = λ w h. (h.0, (IsSound-Rules h.0).calls.at w h.1) };
  logical = λ f. IsRecoverable-Keeps (λ o. (IsSound-Rules o).logical f);
  receipt = λ r. IsRecoverable-Keeps (λ o. (IsSound-Rules o).receipt r);
  released = IsRecoverable-Keeps (λ o. (IsSound-Rules o).released);
  state_saved = λ state. IsRecoverable-Keeps (λ o. (IsSound-Rules o).state_saved state);
  touched = λ at. IsRecoverable-Keeps (λ o. (IsSound-Rules o).touched at);
  task_saved = IsRecoverable-Keeps (λ o. (IsSound-Rules o).task_saved);
}

IsSound-StoreRules : (owner : String) → StoreRules (IsSound owner) (Owns owner)
IsSound-StoreRules owner = record {
  opened = IsSound-open_task owner;
  stored = λ w h. h.lane.stored;
  idle = Owns-idle owner;
}

module _ (env : Env) where
  IsRecoverable-LaneRules : LaneRules env IsRecoverable
  IsRecoverable-LaneRules = record {
    claimed = λ purpose request _. record {
      at = λ w h.
          let lane = (HasLane-claim_lane env purpose request).at w (h.0, h.1.lane) in
          (
            lane.0,
            record { lane = lane.1; crash = (crash-claim_lane env purpose request).at w h.1.crash },
          );
    };
    sent = λ asked. IsRecoverable-Keeps (λ o. IsSound-broadcast_exact env o asked);
  }

  IsRecoverable-OpenRules : OpenRules env IsRecoverable
  IsRecoverable-OpenRules = record {
    scanned =
        IsRecoverable-Keeps (λ o. scan_once-Keeps (IsSound-StoreRules o) env (IsSound-Rules o));
    opened_idle = λ t idle. IsRecoverable-Keeps (λ o. IsSound-open_task o t (Owns-idle o t idle));
    opened_file =
        λ t w h file. (h.0, (IsSound-open_task h.0 t (file (Owns h.0) h.1.lane.stored)).at w h.1);
  }

  pub run-IsRecoverable :
      (commands : List Command) (w : World) → IsRecoverable w → IsRecoverable (run env w commands)
  run-IsRecoverable =
      run-keeps env IsRecoverable-OpenRules IsRecoverable-Rules IsRecoverable-LaneRules
