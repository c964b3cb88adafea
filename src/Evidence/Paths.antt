-- ===== src/Evidence/Paths.antt =====
-- `_validate_paths` of src/durable_threads/evidence.py, and lists of paths as sets.
use durable_threads.Prelude.{
  Text, codes, contains, contains-Memb, strip, starts_with, split_on, Bool, true, false, not, List,
  [], ◌∷◌, ◌++◌, any, all, ◌≡◌, ◌⊎◌, inl, inr, ◌↔◌, ok, >>=-eq-ok, ok-injective, raise_if,
  if◌then◌else◌, Memb, here, there, Memb-append, Memb-append_left, Memb-append_right, Bool-cases,
  subst, sym, ap, arith, ==_iff,
}
use durable_threads.Errors.{evidence_error}
use durable_threads.Evidence.{slashes, is_unsafe, path_matches, clean_paths, same_set}

Memb-contains : (t : Text) (ss : List Text) → Memb t ss → contains t ss ≡ true
unfolding contains
Memb-contains t [] m = elim m [ ]
Memb-contains t (s ∷ ss) (here e) = let q = (==_iff t s).1 e in ground arith
Memb-contains t (s ∷ ss) (there m) = let q = Memb-contains t ss m in ground arith

all-Memb : (p : Text → Bool) (t : Text) (ss : List Text) → all p ss ≡ true → Memb t ss → p t ≡ true
unfolding all
all-Memb p t [] h m = elim m [ ]
all-Memb p t (s ∷ ss) h (here e) = rw e (ground arith)
all-Memb p t (s ∷ ss) h (there m) = all-Memb p t ss (ground arith) m

pub same_set-Memb : (xs ys : List Text) (t : Text) → same_set xs ys ≡ true → Memb t xs ↔ Memb t ys
unfolding same_set
same_set-Memb xs ys t h = (
  λ m. contains-Memb t ys (all-Memb (λ x. contains x ys) t xs (ground arith) m),
  λ m. contains-Memb t xs (all-Memb (λ y. contains y xs) t ys (ground arith) m),
)

-- A path that stays inside the repository and matches one of the allowed ones.
pub record IsClean (fnmatch : Text → Text → Bool) (allowed : List Text) (path : Text) : Type 0 where
  pub relative : starts_with path (codes "/") ≡ false
  pub inside : contains (codes "..") (split_on b'/' path) ≡ false
  pub allows : any (path_matches fnmatch path) allowed ≡ true

module _ (fnmatch : Text → Text → Bool) (allowed : List Text) where
  abbrev added : Text → List Text → List Text
  added path clean = if contains path clean then clean else clean ++ path ∷ []

  Memb-added :
      (p path : Text) (clean : List Text) → Memb p (added path clean) → Memb p clean ⊎ (p ≡ path)
  Memb-added p path clean m = elim (Bool-cases (contains path clean)) [
    | inl e ↦ inl (simp e at m)
    | inr e ↦ elim (Memb-append clean (path ∷ []) (simp e at m)) [
      | inl k ↦ inl k
      | inr k ↦ elim k [ here q ↦ inr q | there q ↦ elim q [ ] ]
    ]
  ]

  added-Memb :
      (p path : Text) (clean : List Text) → Memb p clean ⊎ (p ≡ path) → Memb p (added path clean)
  added-Memb p path clean h = elim (Bool-cases (contains path clean)) [
    | inl e ↦ rw e (elim h [
      | inl m ↦ m
      | inr q ↦ subst (λ t. Memb t clean) (sym q) (contains-Memb path clean e)
    ])
    | inr e ↦ rw e (elim h [
      | inl m ↦ Memb-append_left clean (path ∷ []) m
      | inr q ↦ Memb-append_right clean (path ∷ []) (here q)
    ])
  ]

  -- One round of the loop.
  IsClean-round :
      (clean : List Text) (raw : Text) (rest out : List Text)
      → clean_paths fnmatch allowed clean (raw ∷ rest) ≡ ok out
      → IsClean fnmatch allowed (strip (slashes raw))
        × (clean_paths fnmatch allowed (added (strip (slashes raw)) clean) rest ≡ ok out)
  unfolding clean_paths
  IsClean-round clean raw rest out h =
      let path = strip (slashes raw) in
      let (_, safe, h₁) =
        >>=-eq-ok (raise_if (is_unsafe path) (evidence_error "changed path is unsafe")) _ h in
      let (_, matched, h₂) =
        >>=-eq-ok
          (raise_if (not (any (path_matches fnmatch path) allowed))
            (evidence_error "changed path is outside the allowed paths"))
          _ h₁ in
      (
        record {
          relative = unfold is_unsafe in ground arith;
          inside = unfold is_unsafe in ground arith;
          allows = ground arith;
        },
        h₂,
      )

  pub clean_paths-IsClean :
      (clean paths out : List Text)
      → clean_paths fnmatch allowed clean paths ≡ ok out
      → ((p : Text) → Memb p clean → IsClean fnmatch allowed p)
      → (p : Text) → Memb p out
      → IsClean fnmatch allowed p
  unfolding clean_paths
  clean_paths-IsClean clean [] out h all_clean p m =
      all_clean p (subst (Memb p) (sym (ok-injective h)) m)
  clean_paths-IsClean clean (raw ∷ rest) out h all_clean p m =
      let (path_clean, h₁) = IsClean-round clean raw rest out h in
      clean_paths-IsClean (added (strip (slashes raw)) clean) rest out h₁
        (λ q k. elim (Memb-added q _ clean k) [
          | inl k' ↦ all_clean q k'
          | inr e ↦ subst (IsClean fnmatch allowed) (sym e) path_clean
        ])
        p m

  pub Memb-clean_paths :
      (clean paths out : List Text)
      → clean_paths fnmatch allowed clean paths ≡ ok out
      → ((p : Text) → Memb p clean → Memb p out)
        × ((raw : Text) → Memb raw paths → Memb (strip (slashes raw)) out)
  unfolding clean_paths
  Memb-clean_paths clean [] out h = (λ p m. subst (Memb p) (ok-injective h) m, λ raw m. elim m [ ])
  Memb-clean_paths clean (r ∷ rest) out h =
      let (_, h₁) = IsClean-round clean r rest out h in
      let (kept, claimed) = Memb-clean_paths (added (strip (slashes r)) clean) rest out h₁ in
      (
        λ p m. kept p (added-Memb p _ clean (inl m)),
        λ raw m. elim m [
          | here e ↦ kept _ (added-Memb _ _ clean (inr (ap (λ (t : Text). strip (slashes t)) e)))
          | there k ↦ claimed raw k
        ],
      )
