-- ===== src/Providers/Argv.antt =====
-- The argument vectors of src/durable_threads/providers.py.
use durable_threads.Prelude.{
  Text, lit, ◌==◌, contains, nonblank, lower, Bool, true, false, not, Option, none, some, List, [],
  ◌∷◌, ◌++◌, ◌≡◌, refl, ◌⊎◌, inl, inr, arith, ok, >>=-eq-ok, ok-injective, raise_if, ◌>>=◌, subst,
  if◌then◌else◌,
}
use durable_threads.Errors.{provider_error}
use durable_threads.Regex.{fullmatch}
use durable_threads.Providers.{
  Adapter, codex, claude, grok, cursor, capability, safe_model, checked_model, selector_value,
  base_model, no_role_model, adapter_model, adapter_effort, efforts, claude_alias, role_selectors,
  has_code,
}
use durable_threads.Providers.Invocation.{option_args, session_args, print_args}

-- A text that `build_invocation` accepts as a session.
pub record IsSession (t : Text) : Type 0 where
  pub is_nonblank : nonblank t ≡ true
  pub no_null : has_code 0 t ≡ false

-- Options of a provider's command: each flag is followed by one value that was checked.
pub data Options : List Text → Type 0 where
  no_options : Options []
  model_option :
      {flag model : Text} {rest : List Text}
      → (flag ≡ lit "--model") ⊎ (flag ≡ lit "-m")
      → fullmatch safe_model model ≡ true
      → Options rest
      → Options (flag ∷ model ∷ rest)
  effort_option :
      {effort : Text} {rest : List Text}
      → contains effort efforts ≡ true
      → Options rest
      → Options (lit "--effort" ∷ effort ∷ rest)
  session_option :
      {flag session : Text} {rest : List Text}
      → (flag ≡ lit "--resume") ⊎ (flag ≡ lit "--name")
      → IsSession session
      → Options rest
      → Options (flag ∷ session ∷ rest)

-- The whole command: the prompt is one argument, right behind `-p`.
pub data Command (prompt : Text) : List Text → Type 0 where
  command :
      {executable : Text} {rest : List Text}
      → Options rest
      → Command prompt (executable ∷ print_args prompt ++ rest)
  quiet_command :
      {executable : Text} {rest : List Text}
      → Options rest
      → Command prompt (executable ∷ lit "--no-auto-update" ∷ print_args prompt ++ rest)

-- The models that an adapter passes on.
pub data IsModel : Option Text → Type 0 where
  default : IsModel none
  named : {m : Text} → fullmatch safe_model m ≡ true → IsModel (some m)

some-IsModel :
    (value : Text) (m : Option Text)
    → (raise_if
          (not (fullmatch safe_model value))
          (provider_error "model selector contains unsafe characters")
        >>= λ u. ok (some value))
      ≡ ok m
    → IsModel m
some-IsModel value m h =
    let (u, safe, same) =
      >>=-eq-ok
        (raise_if (not (fullmatch safe_model value))
          (provider_error "model selector contains unsafe characters"))
        _ h in
    subst IsModel (ok-injective same) (named (ground arith))

checked_model-IsModel : (value : Text) (m : Option Text) → checked_model value ≡ ok m → IsModel m
unfolding checked_model
checked_model-IsModel value m h = by_default (lower value == lit "default") h
  where
    by_default :
        (b : Bool)
        → (if b
            then ok none
            else (raise_if
                  (not (fullmatch safe_model value))
                  (provider_error "model selector contains unsafe characters")
                >>= λ u. ok (some value)))
          ≡ ok m
        → IsModel m
    by_default true h = subst IsModel (ok-injective h) default
    by_default false h = some-IsModel value m h

no_role_model-IsModel :
    (adapter : Adapter) (selector : Text) (m : Option Text)
    → no_role_model adapter selector ≡ ok m
    → IsModel m
unfolding base_model no_role_model
no_role_model-IsModel adapter selector m h =
    let (value, read, h₁) = >>=-eq-ok (selector_value (capability adapter).provider selector) _ h in
    let (u, no_role, h₂) =
      >>=-eq-ok
        (raise_if (contains (lower value) role_selectors)
          (provider_error "generic role selectors are not mapped"))
        _ h₁ in
    let (again, read₂, h₃) = >>=-eq-ok (selector_value (capability adapter).provider value) _ h₂ in
    checked_model-IsModel again m h₃

pub adapter_model-IsModel :
    (adapter : Adapter) (selector : Text) (m : Option Text)
    → adapter_model adapter selector ≡ ok m
    → IsModel m
unfolding adapter_model base_model
adapter_model-IsModel codex selector m h =
    let (value, read, h₁) = >>=-eq-ok (selector_value (capability codex).provider selector) _ h in
    checked_model-IsModel value m h₁
adapter_model-IsModel claude selector m h =
    let (value, read, h₁) = >>=-eq-ok (selector_value (capability claude).provider selector) _ h in
    checked_model-IsModel (claude_alias value) m h₁
adapter_model-IsModel grok selector m h = no_role_model-IsModel grok selector m h
adapter_model-IsModel cursor selector m h = no_role_model-IsModel cursor selector m h

-- The effort that an adapter passes on.
pub data IsEffort : Option Text → Type 0 where
  no_effort : IsEffort none
  known_effort : {e : Text} → contains e efforts ≡ true → IsEffort (some e)

pub adapter_effort-IsEffort :
    (adapter : Adapter) (value : Text) (e : Option Text)
    → adapter_effort adapter value ≡ ok e
    → IsEffort e
unfolding adapter_effort
adapter_effort-IsEffort adapter value e h =
    let (u, known, same) =
      >>=-eq-ok
        (raise_if (not (contains value efforts)) (provider_error "reasoning effort must be one of"))
        _ h in
    subst IsEffort (ok-injective same) (
      chosen_effort (contains value (lit "none" ∷ lit "minimal" ∷ []))
        (capability adapter).supports_effort (ground arith))
  where
    chosen_effort :
        (none_at_all supported : Bool)
        → contains value efforts ≡ true
        → IsEffort (if none_at_all then none else if supported then some value else none)
    chosen_effort true supported k = no_effort
    chosen_effort false true k = known_effort k
    chosen_effort false false k = no_effort

pub model-Options :
    (flag : Text) (m : Option Text) (rest : List Text)
    → (flag ≡ lit "--model") ⊎ (flag ≡ lit "-m")
    → IsModel m
    → Options rest
    → Options (option_args flag m ++ rest)
unfolding option_args
model-Options flag none rest f k o = o
model-Options flag (some []) rest f k o = o
model-Options flag (some (c ∷ t)) rest f (named safe) o = model_option f safe o

pub effort-Options :
    (e : Option Text) (rest : List Text)
    → IsEffort e
    → Options rest
    → Options (option_args (lit "--effort") e ++ rest)
unfolding option_args
effort-Options none rest k o = o
effort-Options (some []) rest k o = o
effort-Options (some (c ∷ t)) rest (known_effort k) o = effort_option k o

-- What the checks of a request leave of its session and its session's name.
pub data IsOptionalSession : Option Text → Type 0 where
  absent : IsOptionalSession none
  present : {t : Text} → IsSession t → IsOptionalSession (some t)

pub session-Options :
    (flag : Text) (s : Option Text)
    → (flag ≡ lit "--resume") ⊎ (flag ≡ lit "--name")
    → IsOptionalSession s
    → Options (option_args flag s)
unfolding option_args
session-Options flag none f k = no_options
session-Options flag (some []) f k = no_options
session-Options flag (some (c ∷ t)) f (present k) = session_option f k no_options

pub session_args-Options :
    (session_id session_name : Option Text)
    → IsOptionalSession session_id
    → IsOptionalSession session_name
    → Options (session_args session_id session_name)
unfolding option_args
session_args-Options none name k l = session-Options (lit "--name") name (inr refl) l
session_args-Options (some []) name k l = session-Options (lit "--name") name (inr refl) l
session_args-Options (some (c ∷ t)) name (present k) l = session_option (inl refl) k no_options
