-- ===== src/Pro5/Limited.antt =====
-- What the quota and the warnings of a probe of pro5.py can hold.
use durable_threads.Prelude.{
  some-injective, ℕ, zero, suc, Text, lit, Bool, true, false, ◌≡◌, refl, sym, subst, ◌⊎◌, inl, inr,
  Option, none, some, List, [], ◌∷◌, ◌++◌, Memb, here, there, Memb-append, ok, err, ok-injective,
  >>=-eq-ok, arith, raise_if, if◌then◌else◌, ℤ, pos, ltb_ℤ, leb_ℤ, some-injective,
}
use durable_threads.Errors.{Res, runtime_error}
use durable_threads.Json.{Fields, obj}
use durable_threads.Pro5.{value_at, fields_of}
use durable_threads.Pro5.Quota.{
  Quota, brief, full, Window, Windows, stop, all_of, quota_summary, summary_of, summary_from,
  summary_in, read_windows, bucket_of, least, with_least, unknown, is_codex,
}
use durable_threads.Pro5.Windows.{IsOpen, read_window-IsOpen, read_window-window, read_windows-All}
use durable_threads.Pro5.Probe.{truncated, unverified, quota_from}

-- The windows of a summary bear one of two names, and hold numbers that were checked; what remains is
-- what one of them has left.
pub record IsPlain (now : ℤ) (ws : List Window) (r : Option ℤ) (seen : ℤ) : Type 0 where
  pub windows :
      (w : Window) → Memb w ws → IsOpen now w × Memb w.window (lit "primary" ∷ lit "secondary" ∷ [])
  pub remaining : (r ≡ none) ⊎ ((w : Window) × Memb w ws × (r ≡ some w.remaining_percent))
  pub time : seen ≡ now

-- A quota is a status alone, or a status with such windows.
abbrev pub IsLimited : ℤ → Quota → Type 0
IsLimited now (brief status) = Unit {0}
IsLimited now (full status ws r seen) = IsPlain now ws r seen

least-source :
    (ws : List Window)
    → (least ws ≡ none) ⊎ ((w : Window) × Memb w ws × (least ws ≡ some w.remaining_percent))
unfolding least
least-source [] = inl refl
least-source (v ∷ ws) = inr (first (least ws) (least-source ws))
  where
    first :
        (found : Option ℤ)
        → (found ≡ none) ⊎ ((w : Window) × Memb w ws × (found ≡ some w.remaining_percent))
        → (w : Window) × Memb w (v ∷ ws) × (with_least v found ≡ some w.remaining_percent)
    first none h = (v, here refl, refl)
    first (some r) (inl e) = absurd cc
    first (some r) (inr (w, m, e)) = lower (leb_ℤ v.remaining_percent r)
      where
        lower :
            (b : Bool)
            → (x : Window) × Memb x (v ∷ ws)
              × (some (if b then v.remaining_percent else r) ≡ some x.remaining_percent)
        lower true = (v, here refl, refl)
        lower false = (w, there m, e)

summary_of-IsLimited :
    (bucket : Fields) (now : ℤ) (q : Quota) → summary_of bucket now ≡ ok q → IsLimited now q
unfolding summary_of summary_from
summary_of-IsLimited bucket now q h =
    let (windows, e, same) =
      >>=-eq-ok (read_windows bucket now (lit "primary" ∷ lit "secondary" ∷ [])) _ h in
    subst (IsLimited now) (ok-injective same) (from windows e)
  where
    from :
        (windows : Windows)
        → read_windows bucket now (lit "primary" ∷ lit "secondary" ∷ []) ≡ ok windows
        → IsLimited now (summary_from bucket now windows)
    from (stop status) e = tt
    from (all_of vs) e = record {
      windows =
          read_windows-All
            (λ w. IsOpen now w × Memb w.window (lit "primary" ∷ lit "secondary" ∷ [])) bucket now
            (lit "primary" ∷ lit "secondary" ∷ []) vs
            (λ key w m same. (
              read_window-IsOpen key (value_at key bucket) now w same,
              subst (λ k. Memb k (lit "primary" ∷ lit "secondary" ∷ []))
                  (sym (read_window-window key (value_at key bucket) now w same)) m,
            ))
            e;
      remaining = least-source vs;
      time = refl;
    }

quota_summary-IsLimited :
    (payload : Fields) (now : ℤ) (q : Quota)
    → quota_summary (obj payload) now ≡ ok q
    → IsLimited now q
unfolding quota_summary summary_in
quota_summary-IsLimited payload now q h =
    let (done, e, same) = >>=-eq-ok (raise_if (ltb_ℤ now (pos 0)) _) _ h in
    in_bucket (fields_of (bucket_of payload)) same
  where
    named :
        (b : Bool) (bucket : Fields)
        → (if b then summary_of bucket now else ok (brief unknown)) ≡ ok q
        → IsLimited now q
    named true bucket same = summary_of-IsLimited bucket now q same
    named false bucket same = subst (IsLimited now) (ok-injective same) tt

    in_bucket : (found : Option Fields) → summary_in found now ≡ ok q → IsLimited now q
    in_bucket none same = subst (IsLimited now) (ok-injective same) tt
    in_bucket (some bucket) same = named (is_codex (value_at (lit "limitId") bucket)) bucket same

-- The texts that a warning can be.
abbrev pub warning_texts : List Text
warning_texts =
    lit "Model listing truncated after eight pages"
    ∷ lit "Rate-limit read unavailable; check /status"
    ∷ lit "ChatGPT-managed sign-in not verified; do not assume subscription billing"
    ∷ []

abbrev pub AllWarned : List Text → Type 0
AllWarned ws = (w : Text) → Memb w ws → Memb w warning_texts

pub AllWarned-append : (ws vs : List Text) → AllWarned ws → AllWarned vs → AllWarned (ws ++ vs)
AllWarned-append ws vs h k w m = elim (Memb-append ws vs m) [ inl l ↦ h w l | inr l ↦ k w l ]

pub truncated-AllWarned : (n : ℕ) → AllWarned (truncated n)
truncated-AllWarned zero w (here e) = here e
truncated-AllWarned zero w (there m) = elim m [ ]
truncated-AllWarned (suc n) w m = elim m [ ]

pub unverified-AllWarned : AllWarned unverified
unverified-AllWarned w (here e) = there (there (here e))
unverified-AllWarned w (there m) = elim m [ ]

-- What the reading of the limits gives.
pub record IsRead (now : ℤ) (found : Option Quota × List Text) : Type 0 where
  pub limited : (q : Quota) → found.0 ≡ some q → IsLimited now q
  pub warned : AllWarned found.1

pub quota_from-IsRead :
    (now : ℤ) (limits : Res Fields) (found : Option Quota × List Text)
    → quota_from now limits ≡ ok found
    → IsRead now found
unfolding quota_from
quota_from-IsRead now (ok limits) found h = from (quota_summary (obj limits) now) refl h
  where
    from :
        (r : Res Quota)
        → quota_summary (obj limits) now ≡ r
        → (elim r [ ok q ↦ ok (some q, []) | err e ↦ err e ]) ≡ ok found
        → IsRead now found
    from (ok q) e same = subst (IsRead now) (ok-injective same) (record {
      limited = λ p is.
          subst (IsLimited now) (some-injective is) (quota_summary-IsLimited limits now q e);
      warned = λ w m. elim m [ ];
    })
    from (err e) f same = absurd (ground arith)
quota_from-IsRead now (err (runtime_error m)) found h =
    subst (IsRead now) (ok-injective h) (record {
      limited = λ p is. subst (IsLimited now) (some-injective is) tt;
      warned = λ w m. there (single w m);
    })
  where
    single :
        (w : Text)
        → Memb w (lit "Rate-limit read unavailable; check /status" ∷ [])
        → Memb w (
            lit "Rate-limit read unavailable; check /status"
            ∷ lit "ChatGPT-managed sign-in not verified; do not assume subscription billing"
            ∷ [])
    single w (here e) = here e
    single w (there m) = elim m [ ]
quota_from-IsRead now (err e) found h = absurd (ground arith)
