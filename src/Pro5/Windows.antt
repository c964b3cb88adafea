-- ===== src/Pro5/Windows.antt =====
-- The windows that `quota_summary` of pro5.py collects.
use durable_threads.Prelude.{
  ap, ◌∙◌, not, Text, Bool, true, false, ◌≡◌, refl, sym, err, not, if◌then◌else◌, lit, subst,
  Option, none, some, List, [], ◌∷◌, ok, ℤ, pos, ◌-ℤ◌, ◌≤ℤ◌, leb_ℤ, ltb_ℤ, Memb, here, there,
  >>=-eq-ok, ok-injective, arith, ◌||◌, ◌&&◌,
}
use durable_threads.Errors.{Res}
use durable_threads.Json.{Json, Fields, null, obj}
use durable_threads.Pro5.{value_at}
use durable_threads.Pro5.Quota.{
  seen_in, with_least, Window, Windows, stop, all_of, Seen, absent, bad, usable, window_from,
  read_window, read_windows, least, with_seen, add_window, with_least, seen_in, finite_numbers,
  refresh_required,
}

-- A window that counts.
pub record IsOpen (now : ℤ) (w : Window) : Type 0 where
  pub used_low : pos 0 ≤ℤ w.used_percent
  pub used_high : w.used_percent ≤ℤ pos 100000
  pub rest : w.remaining_percent ≡ pos 100000 -ℤ w.used_percent
  pub later : ltb_ℤ now w.resets_at ≡ true
  pub lasts : ltb_ℤ (pos 0) w.window_duration_mins ≡ true

usable-injective : {v w : Window} → usable v ≡ usable w → v ≡ w
usable-injective h = cc

window_from-IsOpen :
    (key : Text) (now : ℤ) (ns : List ℤ) (w : Window)
    → window_from key now ns ≡ usable w
    → IsOpen now w
unfolding window_from
window_from-IsOpen key now [] w h = cc
window_from-IsOpen key now (a ∷ []) w h = cc
window_from-IsOpen key now (a ∷ (b ∷ [])) w h = cc
window_from-IsOpen key now (a ∷ (b ∷ (d ∷ (e ∷ ns)))) w h = cc
window_from-IsOpen key now (used ∷ (reset ∷ (duration ∷ []))) w h =
    go
      (not (leb_ℤ (pos 0) used && leb_ℤ used (pos 100000))
        || (leb_ℤ reset now || leb_ℤ duration (pos 0)))
      refl h
  where
    seen : Window
    seen = record {
      window = key;
      used_percent = used;
      remaining_percent = pos 100000 -ℤ used;
      resets_at = reset;
      window_duration_mins = duration;
    }

    go :
        (b : Bool)
        → (not (leb_ℤ (pos 0) used && leb_ℤ used (pos 100000))
            || (leb_ℤ reset now || leb_ℤ duration (pos 0)))
          ≡ b
        → (if b then bad refresh_required else usable seen) ≡ usable w
        → IsOpen now w
    go true e same = cc
    go false e same = subst (IsOpen now) (usable-injective same) (record {
      used_low = ground arith;
      used_high = ground arith;
      rest = refl;
      later = ground arith;
      lasts = ground arith;
    })

-- The least of what remains is at most what each window has.
pub least-Memb :
    (ws : List Window) (w : Window)
    → Memb w ws
    → (r : ℤ) × (least ws ≡ some r) × (r ≤ℤ w.remaining_percent)
unfolding least
least-Memb [] w m = elim m [ ]
least-Memb (v ∷ ws) w (here e) = first (least ws)
  where
    first :
        (found : Option ℤ) → (r : ℤ) × (with_least v found ≡ some r) × (r ≤ℤ w.remaining_percent)
    first none = (
      v.remaining_percent,
      refl,
      subst (λ x. v.remaining_percent ≤ℤ x.remaining_percent) (sym e) (omega arith),
    )
    first (some r) =
        subst (λ x. (s : ℤ) × (with_least v (some r) ≡ some s) × (s ≤ℤ x.remaining_percent)) (sym e)
          (_, refl, ground arith)
least-Memb (v ∷ ws) w (there m) =
    let (r, e, h) = least-Memb ws w m in
    subst (λ found. (s : ℤ) × (with_least v found ≡ some s) × (s ≤ℤ w.remaining_percent)) (sym e)
      (_, refl, ground arith)

pub read_window-IsOpen :
    (key : Text) (v : Json) (now : ℤ) (w : Window)
    → read_window key v now ≡ ok (usable w)
    → IsOpen now w
unfolding read_window
read_window-IsOpen key null now w h = absurd (ground arith)
read_window-IsOpen key (obj fs) now w h =
    let (found, e, same) =
      >>=-eq-ok
        (finite_numbers (
          value_at (lit "usedPercent") fs
          ∷ value_at (lit "resetsAt") fs
          ∷ value_at (lit "windowDurationMins") fs
          ∷ []))
        _ h in
    from found (ok-injective same)
  where
    from : (found : Option (List ℤ)) → seen_in key now found ≡ usable w → IsOpen now w
    from none same = cc
    from (some ns) same = window_from-IsOpen key now ns w same
read_window-IsOpen key v now w h = absurd (ground arith)

window_from-window :
    (key : Text) (now : ℤ) (ns : List ℤ) (w : Window)
    → window_from key now ns ≡ usable w
    → w.window ≡ key
unfolding window_from
window_from-window key now [] w h = cc
window_from-window key now (a ∷ []) w h = cc
window_from-window key now (a ∷ (b ∷ [])) w h = cc
window_from-window key now (a ∷ (b ∷ (d ∷ (e ∷ ns)))) w h = cc
window_from-window key now (used ∷ (reset ∷ (duration ∷ []))) w h =
    go
      (not (leb_ℤ (pos 0) used && leb_ℤ used (pos 100000))
        || (leb_ℤ reset now || leb_ℤ duration (pos 0)))
      h
  where
    seen : Window
    seen = record {
      window = key;
      used_percent = used;
      remaining_percent = pos 100000 -ℤ used;
      resets_at = reset;
      window_duration_mins = duration;
    }

    go : (b : Bool) → (if b then bad refresh_required else usable seen) ≡ usable w → w.window ≡ key
    go true same = cc
    go false same = sym (ap (λ (v : Window). v.window) (usable-injective same))

-- A window bears the name that it was looked up with.
pub read_window-window :
    (key : Text) (v : Json) (now : ℤ) (w : Window)
    → read_window key v now ≡ ok (usable w)
    → w.window ≡ key
unfolding read_window
read_window-window key null now w h = absurd (ground arith)
read_window-window key (obj fs) now w h =
    let (found, e, same) =
      >>=-eq-ok
        (finite_numbers (
          value_at (lit "usedPercent") fs
          ∷ value_at (lit "resetsAt") fs
          ∷ value_at (lit "windowDurationMins") fs
          ∷ []))
        _ h in
    from found (ok-injective same)
  where
    from : (found : Option (List ℤ)) → seen_in key now found ≡ usable w → w.window ≡ key
    from none same = cc
    from (some ns) same = window_from-window key now ns w same
read_window-window key v now w h = absurd (ground arith)

abbrev All : (Window → Type 0) → List Window → Type 0
All P ws = (w : Window) → Memb w ws → P w

all_of-injective : {vs ws : List Window} → all_of vs ≡ all_of ws → vs ≡ ws
all_of-injective h = cc

with_seen-All :
    (P : Window → Type 0) (seen : Seen) (rest : Res Windows) (ws : List Window)
    → ((w : Window) → seen ≡ usable w → P w)
    → ((vs : List Window) → rest ≡ ok (all_of vs) → All P vs)
    → with_seen seen rest ≡ ok (all_of ws)
    → All P ws
unfolding with_seen add_window
with_seen-All P absent rest ws e ih h = ih ws h
with_seen-All P (bad status) rest ws e ih h = absurd (ground arith)
with_seen-All P (usable v) (err raised) ws e ih h = absurd (ground arith)
with_seen-All P (usable v) (ok (stop status)) ws e ih h = absurd (ground arith)
with_seen-All P (usable v) (ok (all_of vs)) ws e ih h =
    subst (All P) (all_of-injective (ok-injective h)) both
  where
    both : All P (v ∷ vs)
    both w (here q) = subst P (sym q) (e v refl)
    both w (there m) = ih vs refl w m

-- What holds of every window that is read holds of all that the loop collects.
pub read_windows-All :
    (P : Window → Type 0) (bucket : Fields) (now : ℤ) (keys : List Text) (ws : List Window)
    → ((key : Text) (w : Window)
        → Memb key keys
        → read_window key (value_at key bucket) now ≡ ok (usable w)
        → P w)
    → read_windows bucket now keys ≡ ok (all_of ws)
    → All P ws
unfolding read_windows
read_windows-All P bucket now [] ws each h =
    λ w m. elim (subst (Memb w) (sym (all_of-injective (ok-injective h))) m) [ ]
read_windows-All P bucket now (key ∷ keys) ws each h =
    let (seen, e, same) = >>=-eq-ok (read_window key (value_at key bucket) now) _ h in
    with_seen-All P seen (read_windows bucket now keys) ws
      (λ w q. each key w (here refl) (e ∙ ap ok q))
      (λ vs. read_windows-All P bucket now keys vs (λ k w m. each k w (there m))) same

pub read_windows-IsOpen :
    (bucket : Fields) (now : ℤ) (keys : List Text) (ws : List Window)
    → read_windows bucket now keys ≡ ok (all_of ws)
    → All (IsOpen now) ws
read_windows-IsOpen bucket now keys ws =
    read_windows-All (IsOpen now) bucket now keys ws
      (λ key w m. read_window-IsOpen key (value_at key bucket) now w)
