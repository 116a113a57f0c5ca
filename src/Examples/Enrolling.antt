-- ===== src/Examples/Enrolling.antt =====
-- A deal that is enrolled from an earlier block, with a reason.
use cr3d_x.Base.{some}
use cr3d_x.Types.{Hex, Enrollment}
use cr3d_x.Exec.{World}
use cr3d_x.Enrollment.Enrolling.{enroll_command}
use cr3d_x.Examples.Worker.{small_env, small_world}

abbrev deal_id : Hex
deal_id = "0x5cf1f030363c28c3fa1862759ccc63b338d0a57fd682d9a6965a61acf93706fc"

abbrev entry : Enrollment
entry = record { deal_id = deal_id; effective_from_source_block = 40; enrolled_at = 1000000000 }

abbrev after : World
after = (enroll_command small_env deal_id (some 40) (some " missed window ") small_world).1
