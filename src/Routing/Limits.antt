-- ===== src/Routing/Limits.antt =====
-- What `select_workers` of src/durable_threads/routing.py selects.
use durable_threads.Prelude.{
  Text, ◌==◌, ==_iff, Bool, true, false, ◌||◌, Option, none, some, List, [], ◌∷◌, ◌++◌, ◌≡◌, refl,
  sym, ap, ◌∙◌, inl, inr, arith, ok, >>=-eq-ok, ok-injective, some-injective, or_raise, subst, ℤ,
  pos, leb_ℤ, ◌≤ℤ◌, first, any, length, length-append, Memb, here, there, Memb-append, traverse,
  if◌then◌else◌,
}
use durable_threads.Errors.{key_error}
use durable_threads.Dict.{Dict, get, put, get-put}
use durable_threads.Native.{WorkerConfig}
use durable_threads.Routing.{
  with_role, named_workers, same_worker, add_worker, add_workers, or_first, names_of,
}

-- A list of workers of a team, no longer than the limit.
pub record IsPick (team : List WorkerConfig) (limit : ℤ) (picked : List WorkerConfig) : Type 0 where
  pub from_team : (w : WorkerConfig) → Memb w picked → Memb w team
  pub within_limit : pos (length picked) ≤ℤ limit

pub first-Memb :
    (p : WorkerConfig → Bool) (ws : List WorkerConfig) (w : WorkerConfig)
    → first p ws ≡ some w
    → Memb w ws × (p w ≡ true)
unfolding first
first-Memb p [] w h = absurd (ground arith)
first-Memb p (v ∷ ws) w h = found (p v) refl (first-Memb p ws w) h
  where
    found :
        (b : Bool)
        → p v ≡ b
        → (first p ws ≡ some w → Memb w ws × (p w ≡ true))
        → (if b then some v else first p ws) ≡ some w
        → Memb w (v ∷ ws) × (p w ≡ true)
    found true e ih h =
        (here (sym (some-injective h)), subst (λ x. p x ≡ true) (some-injective h) e)
    found false e ih h = (there (ih h).0, (ih h).1)

pub with_role-Memb :
    (role : Text) (ws : List WorkerConfig) (w : WorkerConfig)
    → with_role role ws ≡ some w
    → Memb w ws × (w.role ≡ role)
unfolding with_role
with_role-Memb role ws w h =
    let (m, e) = first-Memb (λ (v : WorkerConfig). v.role == role) ws w h in
    (m, (==_iff w.role role).0 e)

added-IsPick :
    (team : List WorkerConfig) (limit : ℤ) (picked : List WorkerConfig) (w : WorkerConfig)
    → IsPick team limit picked
    → Memb w team
    → leb_ℤ limit (pos (length picked)) ≡ false
    → IsPick team limit (picked ++ w ∷ [])
added-IsPick team limit picked w p m h = record {
  from_team = λ v k. elim (Memb-append picked (w ∷ []) k) [
    | inl old ↦ p.from_team v old
    | inr (here e) ↦ subst (λ x. Memb x team) (sym e) m
    | inr (there none_left) ↦ elim none_left [ ]
  ];
  within_limit = ground (arith, length-append picked (w ∷ []));
}

add_worker-IsPick :
    (team : List WorkerConfig) (limit : ℤ) (picked : List WorkerConfig) (o : Option WorkerConfig)
    → IsPick team limit picked
    → ((w : WorkerConfig) → o ≡ some w → Memb w team)
    → IsPick team limit (add_worker limit picked o)
unfolding add_worker
add_worker-IsPick team limit picked none p m = p
add_worker-IsPick team limit picked (some w) p m =
    tested (any (same_worker w) picked) (leb_ℤ limit (pos (length picked))) refl
  where
    tested :
        (a b : Bool)
        → leb_ℤ limit (pos (length picked)) ≡ b
        → IsPick team limit (if a || b then picked else picked ++ w ∷ [])
    tested true b e = p
    tested false true e = p
    tested false false e = added-IsPick team limit picked w p (m w refl) e

pub add_workers-IsPick :
    (limit : ℤ) (team : List WorkerConfig) (roles : List Text) (picked : List WorkerConfig)
    → IsPick team limit picked
    → IsPick team limit (add_workers limit team roles picked)
unfolding add_workers
add_workers-IsPick limit team [] picked p = p
add_workers-IsPick limit team (role ∷ roles) picked p =
    add_workers-IsPick limit team roles (add_worker limit picked (with_role role team)) (
      add_worker-IsPick team limit picked (with_role role team) p
        (λ w e. (with_role-Memb role team w e).0))

pub or_first-IsPick :
    (team : List WorkerConfig) (limit : ℤ) (picked selected : List WorkerConfig)
    → pos 1 ≤ℤ limit
    → IsPick team limit picked
    → or_first picked team ≡ ok selected
    → IsPick team limit selected
unfolding or_first
or_first-IsPick [] limit [] selected least p h = absurd (ground arith)
or_first-IsPick (w ∷ ws) limit [] selected least p h =
    subst (IsPick (w ∷ ws) limit) (ok-injective h) (record {
      from_team = λ v k. elim k [ here e ↦ here e | there m ↦ elim m [ ] ];
      within_limit = ground arith;
    })
or_first-IsPick team limit (s ∷ ss) selected least p h =
    subst (IsPick team limit) (ok-injective h) p

-- What a dictionary of named workers holds under a name.
abbrev IsUnder : List WorkerConfig → Text → WorkerConfig → Type 0
IsUnder team name w = (w.name ≡ name) × Memb w team

abbrev AllUnder : List WorkerConfig → Dict WorkerConfig → Type 0
AllUnder team d = (name : Text) (w : WorkerConfig) → get name d ≡ some w → IsUnder team name w

put-AllUnder :
    (team : List WorkerConfig) (w : WorkerConfig) (d : Dict WorkerConfig)
    → Memb w team
    → AllUnder team d
    → AllUnder team (put w.name w d)
put-AllUnder team w d m a name v h =
    chosen (w.name == name) refl (sym (get-put w.name name w d) ∙ h)
  where
    chosen :
        (b : Bool)
        → (w.name == name) ≡ b
        → (if b then some w else get name d) ≡ some v
        → IsUnder team name v
    chosen true e h = subst (IsUnder team name) (some-injective h) ((==_iff w.name name).0 e, m)
    chosen false e h = a name v h

pub named_workers-AllUnder :
    (team ws : List WorkerConfig) (d : Dict WorkerConfig)
    → ((w : WorkerConfig) → Memb w ws → Memb w team)
    → AllUnder team d
    → AllUnder team (named_workers ws d)
unfolding named_workers
named_workers-AllUnder team [] d i a = a
named_workers-AllUnder team (w ∷ ws) d i a =
    named_workers-AllUnder team ws (put w.name w d) (λ v m. i v (there m))
      (put-AllUnder team w d (i w (here refl)) a)

-- The workers that a list of names stands for.
pub record IsNamed (team : List WorkerConfig) (names : List Text) (picked : List WorkerConfig)
    : Type 0 where
  pub are_named : names_of picked ≡ names
  pub from_team : (w : WorkerConfig) → Memb w picked → Memb w team

pub traverse-IsNamed :
    (team : List WorkerConfig) (d : Dict WorkerConfig) (names : List Text)
    (picked : List WorkerConfig)
    → AllUnder team d
    → traverse (λ name. or_raise (get name d) (key_error "worker")) names ≡ ok picked
    → IsNamed team names picked
unfolding traverse
traverse-IsNamed team d [] picked a h =
    subst (IsNamed team []) (ok-injective h)
      (record { are_named = refl; from_team = λ w m. elim m [ ] })
traverse-IsNamed team d (name ∷ names) picked a h =
    let (w, e₁, h₁) = >>=-eq-ok (or_raise (get name d) (key_error "worker")) _ h in
    let (ws, e₂, same) =
      >>=-eq-ok (traverse (λ name. or_raise (get name d) (key_error "worker")) names) _ h₁ in
    let rest = traverse-IsNamed team d names ws a e₂ in
    let (called, m) = a name w (or_raise-some (get name d) w e₁) in
    subst (IsNamed team (name ∷ names)) (ok-injective same) (record {
      are_named = cc;
      from_team = λ v k. elim k [
        | here e ↦ subst (λ x. Memb x team) (sym e) m
        | there j ↦ rest.from_team v j
      ];
    })
  where
    or_raise-some :
        (o : Option WorkerConfig) (w : WorkerConfig)
        → or_raise o (key_error "worker") ≡ ok w
        → o ≡ some w
    or_raise-some none w h = absurd (ground arith)
    or_raise-some (some v) w h = ap some (ok-injective h)
