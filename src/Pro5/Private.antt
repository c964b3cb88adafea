-- ===== src/Pro5/Private.antt =====
-- What the result of the probe of pro5.py can say.
use durable_threads.Pro5.Known.{
  AllKnown, AllKnown-append, IsNamed, models_in-AllKnown, safe_identifier-IsNamed,
}
use durable_threads.Prelude.{
  ℕ, zero, suc, Text, lit, ==_iff, Bool, true, false, ◌≡◌, refl, sym, ap, ◌∙◌, subst, Option, none,
  some, List, ◌++◌, ok, err, ok-injective, ℤ, arith, is_some, if◌then◌else◌,
}
use durable_threads.Errors.{Res}
use durable_threads.Json.{get_field, Json, null, obj, truthy}
use durable_threads.Pro5.{value_at}
use durable_threads.Pro5.Quota.{Quota}
use durable_threads.Pro5.Rpc.{
  Message, notice, Line, Conversation, opened, Act, then_act, send, rpc, lift,
}
use durable_threads.Pro5.Probe.{
  ModelEntry, Listing, list_pages, models_in, truncated, ProbeResult, account_type_of, is_chatgpt,
  read_quota, quota_from, probe_metadata, unverified,
}
use durable_threads.Pro5.Limited.{
  IsLimited, AllWarned, AllWarned-append, truncated-AllWarned, unverified-AllWarned, IsRead,
  quota_from-IsRead,
}
use durable_threads.Pro5.Moves.{IsReadOnly, requested}
use durable_threads.Pro5.Asked.{probe_metadata-IsReadOnly}

-- A chain that returned: its first part returned, and so did the rest from there.
then_act-ok {ℓ κ} :
    {A : Type ℓ} {B : Type κ} (p : Res A × Conversation) (f : A → Act B) {b : B} {c : Conversation}
    → then_act p f ≡ (ok b, c)
    → (a : A) × (d : Conversation) × (p ≡ (ok a, d)) × (f a d ≡ (ok b, c))
unfolding then_act
then_act-ok (ok a, d) f h = (a, d, refl, h)
then_act-ok (err e, d) f h = cc

-- A listing of known models, with warnings that are among the fixed ones.
record IsListing (l : Listing) : Type 0 where
  listed : AllKnown l.models
  warned : AllWarned l.warnings

module _ (process : List Message → ℕ → Line) (now : ℤ) where
  list_pages-IsListing :
      (n : ℕ) (cursor : Json) (l l' : Listing) (c c' : Conversation)
      → IsListing l
      → list_pages process now n cursor l c ≡ (ok l', c')
      → IsListing l'
  unfolding list_pages
  list_pages-IsListing zero cursor l l' c c' k h =
      subst IsListing (ok-injective (ap (λ p. p.0) h)) k
  list_pages-IsListing (suc n) cursor l l' c c' k h =
      let (page, d, e, h₁) = then_act-ok (rpc process (lit "model/list") _ c) _ h in
      let (found, d', e', h₂) = then_act-ok (models_in page, d) _ h₁ in
      let all_known =
        AllKnown-append l.models found k.listed
          (models_in-AllKnown page found (ap (λ p. p.0) e')) in
      turned (truthy (some (value_at (lit "nextCursor") page))) (l.models ++ found) all_known
        (list_pages process now n (value_at (lit "nextCursor") page)
          (record { models = l.models ++ found; warnings = l.warnings ++ truncated n }))
        d'
        (list_pages-IsListing n (value_at (lit "nextCursor") page) _ l' d' c' (record {
          listed = all_known;
          warned = AllWarned-append l.warnings (truncated n) k.warned (truncated-AllWarned n);
        }))
        h₂
    where
      turned :
          (b : Bool) (models : List ModelEntry)
          → AllKnown models
          → (more : Act Listing) (d : Conversation) → (more d ≡ (ok l', c') → IsListing l')
          → (if b then more else lift (ok (record { models = models; warnings = l.warnings }))) d
            ≡ (ok l', c')
          → IsListing l'
      turned true models known more d ih same = ih same
      turned false models known more d ih same =
          subst IsListing (ok-injective (ap (λ p. p.0) same))
            (record { listed = known; warned = k.warned })

  -- A quota is there for a ChatGPT sign-in alone, and holds no more than `IsRead` says.
  read_quota-IsRead :
      (account_type : Option Text) (found : Option Quota × List Text) (c c' : Conversation)
      → read_quota process now account_type c ≡ (ok found, c')
      → IsRead now found × (is_some found.0 ≡ true → is_chatgpt account_type ≡ true)
  unfolding read_quota
  read_quota-IsRead account_type found c c' h = signed (is_chatgpt account_type) refl h
    where
      given : Res (Option Quota × List Text) × Conversation
      given = (ok found, c')

      signed :
          (b : Bool)
          → is_chatgpt account_type ≡ b
          → (if b
              then (let (limits, c') = rpc process (lit "account/rateLimits/read") none c in
                  (quota_from now limits, c'))
              else (ok (none, unverified), c))
            ≡ given
          → IsRead now found × (is_some found.0 ≡ true → is_chatgpt account_type ≡ true)
      signed true e same = (
        quota_from-IsRead now (rpc process (lit "account/rateLimits/read") none c).0 found
            (ap (λ p. p.0) same),
        λ s. e,
      )
      signed false e same =
          let gone = ok-injective (ap (λ p. p.0) same) in
          (
            subst (IsRead now) gone
                (record { limited = λ q is. absurd (ground arith); warned = unverified-AllWarned }),
            λ s. absurd (
                let nothing =
                  subst (λ (x : Option Quota × List Text). is_some x.0 ≡ false) gone refl in
                ground arith),
          )

returned-injective {ℓ} :
    {A : Type ℓ} {a b : A} {c d : Conversation}
    → ◌≡◌ {A = Res A × Conversation} (ok a, c) (ok b, d)
    → (a ≡ b) × (c ≡ d)
returned-injective h = (ok-injective (ap (λ p. p.0) h), ap (λ p. p.1) h)

-- A report that says no more than this.
pub record IsPrivate (now : ℤ) (r : ProbeResult) : Type 0 where
  pub account : IsNamed r.auth_type
  pub models : AllKnown r.models
  pub warned : AllWarned r.warnings
  pub limited : (q : Quota) → r.quota ≡ some q → IsLimited now q
  pub signed_in : is_some r.quota ≡ true → r.auth_type ≡ some (lit "chatgpt")

is_chatgpt→≡ : (found : Option Text) → is_chatgpt found ≡ true → found ≡ some (lit "chatgpt")
unfolding is_chatgpt
is_chatgpt→≡ none h = absurd (ground arith)
is_chatgpt→≡ (some t) h = ap some ((==_iff t (lit "chatgpt")).0 h)

account_type_of-IsNamed : (v : Json) → IsNamed (account_type_of v)
unfolding account_type_of
account_type_of-IsNamed (obj account) = safe_identifier-IsNamed (get_field (lit "type") account)
account_type_of-IsNamed v = λ t h. absurd (ground arith)

module _ (process : List Message → ℕ → Line) (now : ℤ) where
  -- If the probe returns, then the account type of its result is none or an identifier of at most 96
  -- plain characters, each model is one of the three known ones and each effort is none or such an
  -- identifier, each warning is one of three fixed texts, a quota is there only for the account type
  -- chatgpt and is a status, with or without the time of the call and windows called primary or
  -- secondary whose numbers were checked, and the methods that the result names are those of the
  -- requests that were sent, in order.
  pub probe_metadata-IsPrivate :
      (r : ProbeResult) (c : Conversation)
      → probe_metadata process now opened ≡ (ok r, c)
      → IsPrivate now r × (r.requested_methods ≡ requested c.sent)
  unfolding probe_metadata
  probe_metadata-IsPrivate r c h =
      let (_, c₁, e₁, h₁) = then_act-ok (rpc process (lit "initialize") _ opened) _ h in
      let (_, c₂, e₂, h₂) = then_act-ok (send (notice (lit "initialized")) c₁) _ h₁ in
      let (account, c₃, e₃, h₃) = then_act-ok (rpc process (lit "account/read") _ c₂) _ h₂ in
      let (listing, c₄, e₄, h₄) = then_act-ok (list_pages process now 8 null _ c₃) _ h₃ in
      let (quota, c₅, e₅, h₅) = then_act-ok (read_quota process now _ c₄) _ h₄ in
      let same = returned-injective h₅ in
      let listed =
        list_pages-IsListing process now 8 null _ listing c₃ c₄
          (record { listed = λ e m. elim m [ ]; warned = λ w m. elim m [ ] }) e₄ in
      let (is_read, signed) = read_quota-IsRead process now _ quota c₄ c₅ e₅ in
      (
        subst (IsPrivate now) (same.0) (record {
          account = account_type_of-IsNamed (value_at (lit "account") account);
          models = listed.listed;
          warned = AllWarned-append listing.warnings quota.1 listed.warned is_read.warned;
          limited = is_read.limited;
          signed_in = λ s. is_chatgpt→≡ _ (signed s);
        }),
        subst (λ (x : ProbeResult). x.requested_methods ≡ c₅.methods) same.0 refl
            ∙ (ap (λ (x : Conversation). x.methods) same.1
                ∙ sym
                    (subst (λ (p : Res ProbeResult × Conversation). IsReadOnly p.1) h
                      (probe_metadata-IsReadOnly process now).0).agrees),
      )
