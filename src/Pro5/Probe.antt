-- ===== src/Pro5/Probe.antt =====
-- `probe_metadata` of pro5.py: what it asks a Codex process for, and the result it makes of the answers.
use durable_threads.Pro5.Rpc.{Act, Line, Message, lift, notice, rpc, send, ◌>>=◌, ◌>>◌}
use durable_threads.Prelude.{
  ℕ, suc, zero, Text, lit, ◌==◌, contains, Bool, false, Option, none, some, List, [], ◌∷◌, ◌++◌,
  map, ok, err, if◌then◌else◌, ℤ, pos,
}
use durable_threads.Errors.{Res, runtime_error, type_error}
use durable_threads.Json.{
  Json, Fields, Items, nil, cons, end, field, null, bool, int, str, arr, obj, get_field, truthy,
}
use durable_threads.Pro5.{safe_identifier, value_at, or_value}
use durable_threads.Pro5.Quota.{Quota, brief, unknown, quota_summary}

-- The dicts among the items of a `for` loop; the items of a text or of a dict are texts.
unfoldable pub dicts_of : List Json → List Fields
dicts_of [] = []
dicts_of (obj fs ∷ vs) = fs ∷ dicts_of vs
dicts_of (v ∷ vs) = dicts_of vs

unfoldable item_list : Items → List Json
item_list nil = []
item_list (cons v vs) = v ∷ item_list vs

unfoldable pub dicts_in : Option Json → Res (List Fields)
unfolding dicts_of item_list
dicts_in none = ok []
dicts_in (some (arr vs)) = ok (dicts_of (item_list vs))
dicts_in (some (obj fs)) = ok []
dicts_in (some (str t)) = ok []
dicts_in (some v) = err (type_error "object is not iterable")

pub record ModelEntry : Type 0 where
  pub model : Text
  pub supported_efforts : List (Option Text)

abbrev pub known_models : List Text
known_models = lit "gpt-6-astra" ∷ lit "gpt-5.6-luna" ∷ lit "gpt-5.6-terra" ∷ []

-- `safe_identifier(d.get(a) or d.get(b))`.
unfoldable pub identifier_of : Text → Text → Fields → Option Text
unfolding safe_identifier or_value value_at
identifier_of a b fs = safe_identifier (some (or_value (value_at a fs) (value_at b fs)))

abbrev pub effort_names : Res (List Fields) → Res (List (Option Text))
effort_names (err e) = err e
effort_names (ok found) = ok (map (identifier_of (lit "reasoningEffort") (lit "effort")) found)

unfoldable pub efforts_of : Fields → Res (List (Option Text))
unfolding dicts_in get_field lit
efforts_of model = effort_names (dicts_in (get_field (lit "supportedReasoningEfforts") model))

abbrev pub with_model :
    Text → Res (List (Option Text)) → Res (List ModelEntry) → Res (List ModelEntry)
with_model name (ok efforts) (ok entries) =
    ok (record { model = name; supported_efforts = efforts } ∷ entries)
with_model name (ok efforts) (err e) = err e
with_model name (err e) rest = err e

-- What one model adds to those that follow it.
abbrev pub with_entry : Fields → Option Text → Res (List ModelEntry) → Res (List ModelEntry)
with_entry model none rest = rest
with_entry model (some name) rest =
    if contains name known_models then with_model name (efforts_of model) rest else rest

unfoldable pub entries_of : List Fields → Res (List ModelEntry)
unfolding identifier_of efforts_of contains lit
entries_of [] = ok []
entries_of (model ∷ models) =
    with_entry model (identifier_of (lit "model") (lit "id") model) (entries_of models)

pub record Listing : Type 0 where
  pub models : List ModelEntry
  pub warnings : List Text

abbrev page_params : Json → Fields
page_params cursor =
    if truthy (some cursor)
    then field (lit "limit") (int (pos 100)) (field (lit "cursor") cursor end)
    else field (lit "limit") (int (pos 100)) end

abbrev pub listed : Res (List Fields) → Res (List ModelEntry)
listed (ok found) = entries_of found
listed (err e) = err e

abbrev pub models_in : Fields → Res (List ModelEntry)
models_in page = listed (dicts_in (get_field (lit "data") page))

-- What the last page leaves unread is a warning.
abbrev pub truncated : ℕ → List Text
truncated zero = lit "Model listing truncated after eight pages" ∷ []
truncated (suc n) = []

-- The next page, if there is a cursor for it.
abbrev pub after_page : Json → List Text → List ModelEntry → Act Listing → Act Listing
after_page next warnings models more =
    if truthy (some next) then more else lift (ok (record { models = models; warnings = warnings }))

pub record ProbeResult : Type 0 where
  pub auth_type : Option Text
  pub chatgpt_sign_in : Bool
  pub models : List ModelEntry
  pub warnings : List Text
  pub quota : Option Quota
  pub requested_methods : List Text

unfoldable pub account_type_of : Json → Option Text
unfolding safe_identifier get_field lit
account_type_of (obj account) = safe_identifier (get_field (lit "type") account)
account_type_of v = none

unfoldable pub is_chatgpt : Option Text → Bool
unfolding lit ◌==◌
is_chatgpt (some t) = t == lit "chatgpt"
is_chatgpt none = false

abbrev initialize_params : Fields
initialize_params =
    field (lit "clientInfo")
      (obj (
        field (lit "name") (str (lit "durable_threads_probe"))
          (field (lit "version") (str (lit "0.6.0")) end)))
      (field (lit "capabilities") (obj (field (lit "experimentalApi") (bool false) end)) end)

abbrev pub unverified : List Text
unverified = lit "ChatGPT-managed sign-in not verified; do not assume subscription billing" ∷ []

-- What the answer to the request of the limits gives.
unfoldable pub quota_from : ℤ → Res Fields → Res (Option Quota × List Text)
unfolding quota_summary lit
quota_from now (ok limits) = elim (quota_summary (obj limits) now) [
  | ok q ↦ ok (some q, [])
  | err e ↦ err e
]
quota_from now (err (runtime_error m)) =
    ok (some (brief unknown), lit "Rate-limit read unavailable; check /status" ∷ [])
quota_from now (err e) = err e

module _ (process : List Message → ℕ → Line) (now : ℤ) where
  -- The loop over the pages that are left.
  unfoldable pub list_pages : ℕ → Json → Listing → Act Listing
  list_pages zero cursor l = lift (ok l)
  list_pages (suc n) cursor l = do
    page ← rpc process (lit "model/list") (some (page_params cursor))
    found ← lift (models_in page)
    after_page (value_at (lit "nextCursor") page) l.warnings (l.models ++ found) (
        list_pages n (value_at (lit "nextCursor") page)
          (record { models = l.models ++ found; warnings = l.warnings ++ truncated n }))

  -- The quota, and the warnings that its reading adds; a `RuntimeError` is caught.
  unfoldable pub read_quota : Option Text → Act (Option Quota × List Text)
  read_quota account_type c =
      if is_chatgpt account_type
      then (let (limits, c') = rpc process (lit "account/rateLimits/read") none c in
          (quota_from now limits, c'))
      else (ok (none, unverified), c)

  unfoldable pub probe_metadata : Act ProbeResult
  probe_metadata = do
    greeting ← rpc process (lit "initialize") (some initialize_params)
    send (notice (lit "initialized"))
    account ← rpc process (lit "account/read") (some (field (lit "refreshToken") (bool false) end))
    let account_type = account_type_of (value_at (lit "account") account)
    listing ← list_pages 8 null (record { models = []; warnings = [] })
    quota ← read_quota account_type
    λ c.
        lift
          (ok (record {
            auth_type = account_type;
            chatgpt_sign_in = is_chatgpt account_type;
            models = listing.models;
            warnings = listing.warnings ++ quota.1;
            quota = quota.0;
            requested_methods = c.methods;
          }))
          c
