-- ===== src/Providers/Samples.antt =====
-- A request for Claude, and a process that answers with one line of JSON.
use durable_threads.Errors.{Res}
use durable_threads.Prelude.{
  Text, codes, lit, ◌==◌, contains, lower, strip, nonblank, span_until, any, Bool, true, Option,
  none, some, List, [], ◌∷◌, ◌≡◌, refl, arith, ok, ℤ, pos, ◌≤ℤ◌, length, all,
}
use durable_threads.Dict.{put, Dict}
use durable_threads.Regex.{fullmatch}
use durable_threads.Json.{Json, str, int, obj, end, field}
use durable_threads.Evidence.Report.{split_lines, reversed}
use durable_threads.Activities.{ExecutionRequest}
use durable_threads.Providers.{
  ProviderInvocation, claude, capability, safe_model, has_code, without_prefix, selector_value,
  checked_model, base_model, no_role_model, adapter_model, adapter_effort,
}
use durable_threads.Providers.Invocation.{
  first_found, option_args, executable_of, build, build_invocation, check_request, adapter_named,
  get_adapter,
}
use durable_threads.Providers.Output.{
  bounded, execution_bounded, session_field, find_session_id, usage_key, count_field, counters,
  find_usage, first_in, extract_session_id, extract_usage,
}
use durable_threads.Providers.Run.{
  Process, finished, DispatchResult, run_invocation, cli_execute, universal_newlines,
}
use durable_threads.Providers.Runners.{
  run_invocation-IsBounded, cli_execute-run_invocation, outcome_of, IsPlainText,
}
use durable_threads.Providers.Commands.{build_invocation-IsInvocation, IsInvocation}
use durable_threads.Providers.Usage.{extract_usage-IsFound, IsFound}

unfoldable pub invocations : Unit {0}
unfolding capability safe_model has_code without_prefix selector_value checked_model base_model
    no_role_model adapter_model adapter_effort first_found option_args executable_of build
    build_invocation check_request adapter_named get_adapter bounded execution_bounded session_field
    find_session_id usage_key count_field counters find_usage first_in extract_session_id
    extract_usage universal_newlines all run_invocation cli_execute lit ◌==◌ contains lower strip
    nonblank span_until any put fullmatch split_lines reversed
invocations = tt

abbrev find : Text → Option Text
find name = some (codes "/bin/claude")

abbrev sample_request : ExecutionRequest
sample_request = record {
  provider = codes "claude";
  prompt = codes "fix it";
  cwd = codes "/w";
  model_selector = codes "claude:balanced";
  reasoning_effort = codes "low";
  session_name = some (codes "dt-1");
  timeout_seconds = pos 60;
  max_output_chars = pos 200;
}

abbrev sample_argv : List Text
sample_argv =
    codes "/bin/claude"
    ∷ codes "-p"
    ∷ codes "fix it"
    ∷ codes "--output-format"
    ∷ codes "json"
    ∷ codes "--model"
    ∷ codes "sonnet"
    ∷ codes "--effort"
    ∷ codes "low"
    ∷ codes "--name"
    ∷ codes "dt-1"
    ∷ []

abbrev sample_invocation : ProviderInvocation
unfolding capability
sample_invocation = record {
  provider = codes "claude";
  executable = some (codes "/bin/claude");
  argv = sample_argv;
  model = some (codes "sonnet");
  reasoning_effort = codes "low";
  session_id = none;
  execution_mode = codes "cli";
  notes = (capability claude).notes;
}

is_built :
    build_invocation find
      (codes "claude")
      (codes "fix it")
      (codes "claude:balanced")
      (codes "low")
      none
      (some (codes "dt-1"))
      none
    ≡ ok sample_invocation
unfolding invocations
is_built = refl

build_invocation-IsInvocation_example : IsInvocation (codes "fix it") sample_invocation
build_invocation-IsInvocation_example =
    build_invocation-IsInvocation find (codes "claude") (codes "fix it") (codes "claude:balanced")
      (codes "low") none (some (codes "dt-1")) none sample_invocation is_built

abbrev sample_line : Json
sample_line = obj (
    field (codes "sessionId") (str (codes " s1 "))
      (field (codes "usage") (obj (field (codes "prompt_tokens") (int (pos 5)) end)) end))

abbrev decode : Text → Res (Option Json)
decode text = ok (some sample_line)

abbrev process : List Text → Text → ℤ → Process
process argv cwd timeout_seconds = finished (pos 0) (codes "{}") (codes "warning")

abbrev is_dir : Text → Bool
is_dir path = true

abbrev sample_result : DispatchResult
sample_result = record {
  provider = codes "claude";
  return_code = pos 0;
  stdout = codes "{}";
  stderr = codes "warning";
  session_id = some (codes "s1");
  usage = some ((codes "inputTokens", pos 5) ∷ []);
}

has_run :
    run_invocation decode is_dir process sample_invocation (codes "/w") (pos 60) (pos 200)
    ≡ ok sample_result
unfolding invocations
has_run = refl

run_invocation-IsBounded_example :
    (pos (length sample_result.stdout) ≤ℤ pos 200)
    × (pos (length sample_result.stderr) ≤ℤ pos 200)
    × (pos 200 ≤ℤ pos 200)
run_invocation-IsBounded_example =
    run_invocation-IsBounded decode is_dir process sample_invocation (codes "/w") (pos 60) (pos 200)
      sample_result has_run

plain_texts : IsPlainText (codes "{}") × IsPlainText (codes "warning")
unfolding all
plain_texts = (refl, refl)

-- A carriage return ends a line, with or without a line feed behind it.
newlines : universal_newlines (97 ∷ 13 ∷ 10 ∷ 13 ∷ 13 ∷ 98 ∷ []) ≡ 97 ∷ 10 ∷ 10 ∷ 10 ∷ 98 ∷ []
unfolding universal_newlines
newlines = refl

cli_execute-run_invocation_example :
    cli_execute decode is_dir process find (codes "claude") sample_request none none
    ≡ ok (outcome_of decode is_dir process (codes "claude") none sample_result)
cli_execute-run_invocation_example =
    cli_execute-run_invocation decode is_dir process find sample_request none none sample_invocation
      (pos 0) (codes "{}") (codes "warning") sample_result is_built refl (omega arith) plain_texts.0
      plain_texts.1 has_run

abbrev counted : Option (Dict ℤ)
counted = some ((codes "inputTokens", pos 5) ∷ [])

is_counted : extract_usage decode (codes "{}") ≡ ok counted
unfolding invocations
is_counted = refl

extract_usage-IsFound_example : IsFound counted
extract_usage-IsFound_example = extract_usage-IsFound decode (codes "{}") counted is_counted

-- A long output keeps both ends around the marker.
truncated : bounded (codes "abcdefghijklmnopqrstuvwxyz") 24 ≡ codes "ab\n[output truncated]\nyz"
unfolding invocations
truncated = refl
