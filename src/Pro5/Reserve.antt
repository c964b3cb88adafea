-- ===== src/Pro5/Reserve.antt =====
-- When `quota_summary` of pro5.py says that a quota is observed.
use durable_threads.Pro5.Windows.{IsOpen, least-Memb, read_windows-IsOpen}
use durable_threads.Prelude.{
  not, Bool, true, false, ◌≡◌, refl, sym, ◌≤◌, raise_if, not, if◌then◌else◌, length, lit, subst,
  Option, List, [], ◌∷◌, ok, ℤ, pos, ltb_ℤ, Memb, >>=-eq-ok, ok-injective, arith,
}
use durable_threads.Json.{Json, Fields, obj}
use durable_threads.Pro5.{value_at, fields_of}
use durable_threads.Pro5.Quota.{
  Window, brief, full, observed, QuotaStatus, Windows, stop, all_of, quota_summary, summary_of,
  bucket_of, read_windows, least, status_from, seen_status, at_reserve, is_null, summary_from,
  summary_in, unknown, pause, is_codex,
}

-- A summary that is observed.
pub record IsObserved (now : ℤ) (ws : List Window) : Type 0 where
  pub some_window : 1 ≤ length ws
  pub each : (w : Window) → Memb w ws → IsOpen now w
  pub above : (w : Window) → Memb w ws → ltb_ℤ (pos 15000) w.remaining_percent ≡ true

status_from-observed :
    (reached : Bool) (ws : List Window)
    → status_from reached ws ≡ observed
    → (reached ≡ false) × (at_reserve (least ws) ≡ false) × (1 ≤ length ws)
unfolding status_from
status_from-observed true ws h = absurd (ground arith)
status_from-observed false ws h = split (at_reserve (least ws)) ws h
  where
    split :
        (b : Bool) (ws : List Window)
        → (if b then pause else seen_status ws) ≡ observed
        → (false ≡ false) × (b ≡ false) × (1 ≤ length ws)
    split true ws h = absurd (ground arith)
    split false [] h = absurd (ground arith)
    split false (w ∷ ws) h = (refl, refl, omega arith)

above_reserve :
    (ws : List Window) (w : Window)
    → at_reserve (least ws) ≡ false
    → Memb w ws
    → ltb_ℤ (pos 15000) w.remaining_percent ≡ true
above_reserve ws w h m =
    let (r, e, low) = least-Memb ws w m in
    let free = subst (λ x. at_reserve x ≡ false) e h in ground arith

full-injective :
    {status status' : QuotaStatus} {ws ws' : List Window} {r r' : Option ℤ} {seen seen' : ℤ}
    → full status ws r seen ≡ full status' ws' r' seen'
    → (status ≡ status') × (ws ≡ ws') × (seen ≡ seen')
full-injective h = (cc, cc, cc)

summary_of-IsObserved :
    (bucket : Fields) (now : ℤ) (ws : List Window) (r : Option ℤ) (seen : ℤ)
    → summary_of bucket now ≡ ok (full observed ws r seen)
    → (seen ≡ now)
      × IsObserved now ws
      × (is_null (value_at (lit "rateLimitReachedType") bucket) ≡ true)
unfolding summary_of summary_from
summary_of-IsObserved bucket now ws r seen h =
    let (windows, e, same) =
      >>=-eq-ok (read_windows bucket now (lit "primary" ∷ lit "secondary" ∷ [])) _ h in
    from windows e (ok-injective same)
  where
    from :
        (windows : Windows)
        → read_windows bucket now (lit "primary" ∷ lit "secondary" ∷ []) ≡ ok windows
        → summary_from bucket now windows ≡ full observed ws r seen
        → (seen ≡ now)
          × IsObserved now ws
          × (is_null (value_at (lit "rateLimitReachedType") bucket) ≡ true)
    from (stop status) e same = cc
    from (all_of vs) e same =
        let (status, these, when) = full-injective same in
        let (free, above, one) =
          status_from-observed (not (is_null (value_at (lit "rateLimitReachedType") bucket))) vs
            status in
        (
          sym when,
          subst (IsObserved now) these (record {
            some_window = one;
            each = read_windows-IsOpen bucket now (lit "primary" ∷ lit "secondary" ∷ []) vs e;
            above = λ w. above_reserve vs w above;
          }),
          ground arith,
        )

-- If `quota_summary` says that a quota is observed, then it has a window, each of its windows has used
-- between 0 and 100 percent, ends later than now and lasts, and more than 15 percent remain of each;
-- what remains is 100 percent less what is used, the time is that of the call, and the bucket that was
-- read names no limit that was reached.
pub quota_summary-IsObserved :
    (payload : Fields) (now : ℤ) (ws : List Window) (r : Option ℤ) (seen : ℤ)
    → quota_summary (obj payload) now ≡ ok (full observed ws r seen)
    → (seen ≡ now)
      × IsObserved now ws
      × (bucket : Fields) × (bucket_of payload ≡ obj bucket)
      × (is_null (value_at (lit "rateLimitReachedType") bucket) ≡ true)
unfolding quota_summary summary_in
quota_summary-IsObserved payload now ws r seen h =
    let (done, e, same) = >>=-eq-ok (raise_if (ltb_ℤ now (pos 0)) _) _ h in
    in_bucket (bucket_of payload) same
  where
    in_bucket :
        (found : Json)
        → summary_in (fields_of found) now ≡ ok (full observed ws r seen)
        → (seen ≡ now)
          × IsObserved now ws
          × (bucket : Fields) × (found ≡ obj bucket)
          × (is_null (value_at (lit "rateLimitReachedType") bucket) ≡ true)
    in_bucket (obj bucket) same = named (is_codex (value_at (lit "limitId") bucket)) same
      where
        named :
            (b : Bool)
            → (if b then summary_of bucket now else ok (brief unknown))
              ≡ ok (full observed ws r seen)
            → (seen ≡ now)
              × IsObserved now ws
              × (fs : Fields) × (obj bucket ≡ obj fs)
              × (is_null (value_at (lit "rateLimitReachedType") fs) ≡ true)
        named true got =
            let (when, good, free) = summary_of-IsObserved bucket now ws r seen got in
            (when, good, bucket, refl, free)
        named false got = absurd (ground arith)
    in_bucket found same = absurd (ground arith)
