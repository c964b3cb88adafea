-- ===== src/Packets/Samples.antt =====
-- A packet of one path.
use durable_threads.Prelude.{
  codes, lit, ◌==◌, nonblank, strip, traverse, none, [], ◌∷◌, ◌≡◌, refl, pos, ok_or,
}
use durable_threads.Errors.{Res, is_value_error}
use durable_threads.Risk.{r1}
use durable_threads.Risk.Samples.{classifier}
use durable_threads.Regex.{search_in, fullmatch}
use durable_threads.Native.{WorkerConfig}
use durable_threads.Packets.{
  false, DelegationPacket, PacketItems, build_packet, cleaned_items, packet_of, packet_risk,
  clean_text, clean_items, secret_markers, run_id_pattern,
}

unfoldable pub packets : Unit {0}
unfolding classifier build_packet cleaned_items packet_of packet_risk clean_text clean_items
    secret_markers run_id_pattern search_in fullmatch is_value_error nonblank strip traverse lit
    ◌==◌
packets = tt

abbrev implementer : WorkerConfig
implementer = record {
  name = codes "impl";
  role = codes "implementation";
  provider = codes "codex";
  thread_title = codes "impl";
  purpose = codes "code";
  model_selector = codes "default";
  reasoning_effort = codes "medium";
  execution_class = codes "workhorse";
  thread_id = none;
  max_followups = pos 1;
  is_parallel = false;
}

abbrev items : PacketItems
items = record {
  allowed_paths = codes "src" ∷ [];
  acceptance = codes "pytest" ∷ [];
  constraints = [];
  decisions = [];
  invariants = [];
  non_goals = [];
}

abbrev built : Res DelegationPacket
built = build_packet implementer (codes "run-1") (codes "Fix the test") items none

abbrev blank : DelegationPacket
blank = record {
  schema_version = pos 0;
  run_id = [];
  task_name = [];
  role = [];
  provider = [];
  objective = [];
  risk_class = r1;
  execution_class = [];
  decisions = [];
  invariants = [];
  non_goals = [];
  allowed_paths = [];
  acceptance = [];
  constraints = [];
  result_contract = [];
  model_selector = [];
  reasoning_effort = [];
  max_followups = pos 0;
}

packet : DelegationPacket
packet = ok_or built blank

whole_objective : packet.objective ≡ codes "Fix the test Purpose: code"
unfolding packet packets
whole_objective = refl
