-- ===== src/Cli/Planned.antt =====
-- The plans that `_plan` of src/durable_threads/cli.py prints.
use durable_threads.Prelude.{none, length, Memb, pos, ◌≤ℤ◌, ◌≡◌, ok}
use durable_threads.Json.{Json}
use durable_threads.Native.{WorkerConfig}
use durable_threads.Config.Whole.{IsRoster}
use durable_threads.Routing.Chosen.{IsRoute}
use durable_threads.Packets.{DelegationPacket, build_packet}
use durable_threads.Packets.Compact.{IsSafePacket}
use durable_threads.Cli.Commands.{PlanArgs, Plan, plan_items}

pub record IsPlan (args : PlanArgs) (p : Plan) : Type 0 where
  pub roster : IsRoster p.roster
  pub route : IsRoute p.roster p.route
  pub few : pos (length p.packets) ≤ℤ p.roster.max_selected_workers
  pub packets :
      (packet : DelegationPacket)
      → Memb packet p.packets
      → (w : WorkerConfig) × Memb w p.route.selected
        × (build_packet w args.run_id args.objective (plan_items args) none ≡ ok packet)
        × IsSafePacket packet
