-- ===== src/Pro5/Samples.antt =====
-- A configuration with a profile, two quotas, and a probe of a process that answers in order.
use durable_threads.Pro5.Private.{probe_metadata-IsPrivate, IsPrivate}
use durable_threads.Pro5.Moves.{IsReadOnly, requested}
use durable_threads.Pro5.Asked.{probe_metadata-IsReadOnly}
use durable_threads.Pro5.Rpc.{
  Message, Line, value, opened, then_act, rpc, ask_for, await_answer, on_line, on_message, on_reply,
  deny, answer_to, is_number, send,
}
use durable_threads.Pro5.Probe.{
  ProbeResult, probe_metadata, list_pages, read_quota, quota_from, entries_of, efforts_of,
  identifier_of, dicts_in, dicts_of, account_type_of, is_chatgpt,
}
use durable_threads.Pro5.Reserve.{quota_summary-IsObserved, IsObserved}
use durable_threads.Pro5.Quota.{
  quota_summary, summary_in, summary_of, summary_from, status_from, least, read_windows,
  read_window, with_seen, add_window, seen_in, window_from, finite_numbers, finite_number,
  named_bucket, bucket_of, Window, full, observed, is_null,
}
use durable_threads.Pro5.Layers.{audit_config-profile, chosen, IsDict}
use durable_threads.Pro5.{
  safe_identifier, is_identifier, is_plain_char, value_at, or_value, number_of,
}
use durable_threads.Prelude.{
  ℕ, zero, suc, codes, lit, ◌==◌, true, ◌≡◌, refl, none, some, List, [], ◌∷◌, ok, pos, all,
  contains, ap, length, ◌≤◌, ◌-ℤ◌,
}
use durable_threads.Json.{
  Json, Fields, end, field, int, str, arr, obj, cons, nil, get_field, put_field, truthy, is_text,
}
use durable_threads.Pro5.Audit.{
  Audit, audit_config, effective_config, with_layer, overlaid, merged, selected_profile,
  audit_effective, findings_of, flagged, text_in, over_two, enabled_count, is_enabled, expensive,
}

abbrev deep : Fields
deep = field (codes "model_reasoning_effort") (str (codes "ultra")) end

abbrev profiles_table : Fields
profiles_table = field (codes "deep") (obj deep) end

abbrev config : Fields
config = field (codes "model") (str (codes "gpt-6-astra")) (
    field (codes "model_reasoning_effort") (str (codes "medium"))
      (field (codes "profiles") (obj profiles_table) end))

abbrev deep_audit : Audit
deep_audit = record {
  profile = some (codes "deep");
  model = some (codes "gpt-6-astra");
  effort = some (codes "ultra");
  service_tier = none;
  enabled_mcp_servers = 0;
  findings = codes "EXPENSIVE_BASELINE" ∷ codes "CHILD_INHERITANCE" ∷ [];
}

audited : audit_config (obj config) (some (codes "deep")) ≡ ok deep_audit
unfolding audit_config effective_config with_layer overlaid merged selected_profile audit_effective
    findings_of flagged text_in over_two enabled_count is_enabled safe_identifier is_identifier
    is_plain_char all number_of contains get_field put_field truthy lit ◌==◌
audited = refl

audit_config-profile_example :
    (deep_audit.model ≡ safe_identifier (chosen (lit "model") config deep))
    × (deep_audit.effort ≡ safe_identifier (chosen (lit "model_reasoning_effort") config deep))
    × (deep_audit.service_tier ≡ safe_identifier (chosen (lit "service_tier") config deep))
    × (contains (lit "EXPENSIVE_BASELINE") deep_audit.findings
        ≡ text_in expensive (chosen (lit "model_reasoning_effort") config deep))
unfolding lit get_field ◌==◌ IsDict
audit_config-profile_example =
    audit_config-profile config profiles_table deep b'd' (codes "eep") deep_audit refl refl
      (refl, tt) audited

abbrev bucket : Fields
bucket =
    field (codes "primary")
      (obj (
        field (codes "usedPercent") (int (pos 40)) (
          field (codes "resetsAt") (int (pos 2000))
            (field (codes "windowDurationMins") (int (pos 300)) end))))
      end

abbrev payload : Fields
payload = field (codes "rateLimits") (obj bucket) end

abbrev primary : Window
primary = record {
  window = codes "primary";
  used_percent = pos 40000;
  remaining_percent = pos 60000;
  resets_at = pos 2000000;
  window_duration_mins = pos 300000;
}

summarized :
    quota_summary (obj payload) (pos 1000000)
    ≡ ok (full observed (primary ∷ []) (some (pos 60000)) (pos 1000000))
unfolding quota_summary summary_in summary_of summary_from status_from least read_windows
    read_window with_seen add_window seen_in window_from finite_numbers finite_number named_bucket
    bucket_of value_at number_of get_field is_text lit ◌==◌ ◌-ℤ◌
summarized = refl

quota_summary-IsObserved_example :
    (pos 1000000 ≡ pos 1000000)
    × IsObserved (pos 1000000) (primary ∷ [])
    × (found : Fields) × (bucket_of payload ≡ obj found)
    × (is_null (value_at (lit "rateLimitReachedType") found) ≡ true)
quota_summary-IsObserved_example =
    quota_summary-IsObserved payload (pos 1000000) (primary ∷ []) (some (pos 60000)) (pos 1000000)
      summarized

-- The lines of the process: a request of its own, then the answers.
abbrev result_line : ℕ → Fields → Line
result_line n fs =
    value (obj (field (codes "id") (int (pos n)) (field (codes "result") (obj fs) end)))

abbrev account : Fields
account = field (codes "account") (obj (field (codes "type") (str (codes "chatgpt")) end)) end

abbrev luna : Json
luna = obj (
    field (codes "model") (str (codes "gpt-5.6-luna")) (
      field (codes "supportedReasoningEfforts")
        (arr (cons (obj (field (codes "effort") (str (codes "high")) end)) nil)) end))

abbrev server : List Message → ℕ → Line
server sent zero = result_line 1 end
server sent (suc zero) = value (
    obj (field (codes "id") (int (pos 2)) (field (codes "method") (str (codes "execCommand")) end)))
server sent (suc (suc zero)) = result_line 2 account
server sent (suc (suc (suc zero))) = result_line 3 (field (codes "data") (arr (cons luna nil)) end)
server sent (suc (suc (suc (suc n)))) = result_line 4 payload

abbrev report : ProbeResult
report = record {
  auth_type = some (codes "chatgpt");
  chatgpt_sign_in = true;
  models =
      record { model = codes "gpt-5.6-luna"; supported_efforts = some (codes "high") ∷ [] } ∷ [];
  warnings = [];
  quota = some (full observed (primary ∷ []) (some (pos 60000)) (pos 1000000));
  requested_methods =
      codes "initialize"
      ∷ codes "account/read"
      ∷ codes "model/list"
      ∷ codes "account/rateLimits/read"
      ∷ [];
}

probed : (probe_metadata server (pos 1000000) opened).0 ≡ ok report
unfolding probe_metadata then_act rpc ask_for await_answer on_line on_message on_reply deny
    answer_to is_number send list_pages read_quota quota_from entries_of efforts_of identifier_of
    dicts_in dicts_of account_type_of is_chatgpt safe_identifier is_identifier is_plain_char all
    or_value contains truthy quota_summary summary_in summary_of summary_from status_from least
    read_windows read_window with_seen add_window seen_in window_from finite_numbers finite_number
    named_bucket bucket_of value_at number_of get_field is_text lit ◌==◌ ◌-ℤ◌
probed = refl

probe_metadata-IsReadOnly_example :
    IsReadOnly (probe_metadata server (pos 1000000) opened).1
    × (length (probe_metadata server (pos 1000000) opened).1.methods ≤ 11)
    × ((probe_metadata server (pos 1000000) opened).1.lines ≤ 11000)
probe_metadata-IsReadOnly_example = probe_metadata-IsReadOnly server (pos 1000000)

probe_metadata-IsPrivate_example :
    IsPrivate (pos 1000000) report
    × (report.requested_methods ≡ requested (probe_metadata server (pos 1000000) opened).1.sent)
probe_metadata-IsPrivate_example =
    probe_metadata-IsPrivate server (pos 1000000) report
      (probe_metadata server (pos 1000000) opened).1
      (ap (λ r. (r, (probe_metadata server (pos 1000000) opened).1)) probed)
