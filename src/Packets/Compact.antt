-- ===== src/Packets/Compact.antt =====
-- Size and content of the texts of a packet of src/durable_threads/packets.py.
use durable_threads.Prelude.{
  ℕ, ◌≤◌, Text, strip, nonblank, true, false, not, List, [], ◌∷◌, ◌≡◌, ok, >>=-eq-ok, ok-injective,
  raise_if, arith, length, ltb, traverse, Memb, here, there, subst, sym,
}
use durable_threads.Errors.{packet_error}
use durable_threads.Risk.{Risk}
use durable_threads.Regex.{search_in, fullmatch}
use durable_threads.Packets.{
  PacketItems, secret_markers, run_id_pattern, clean_text, clean_items, DelegationPacket,
}

pub record IsCompact (limit : ℕ) (t : Text) : Type 0 where
  pub short : length t ≤ limit
  pub clear : search_in secret_markers t ≡ false

clean_text-IsCompact :
    (limit : ℕ) (value t : Text) → clean_text limit value ≡ ok t → IsCompact limit t
unfolding clean_text
clean_text-IsCompact limit value t h =
    let (_, filled, h₁) =
      >>=-eq-ok (raise_if (not (nonblank value)) (packet_error "must be a non-empty string")) _ h in
    let (_, short, h₂) =
      >>=-eq-ok
        (raise_if (ltb limit (length (strip value)))
          (packet_error "exceeds the compact packet limit"))
        _ h₁ in
    let (_, clear, h₃) =
      >>=-eq-ok
        (raise_if (search_in secret_markers (strip value))
          (packet_error "contains a credential-like value"))
        _ h₂ in
    subst (IsCompact limit) (ok-injective h₃)
      (record { short = ground arith; clear = ground arith })

pub clean_items-IsCompact :
    (limit : ℕ) (values out : List Text)
    → clean_items limit values ≡ ok out
    → (t : Text) → Memb t out
    → IsCompact limit t
unfolding clean_items traverse
clean_items-IsCompact limit [] out h t m = elim (subst (Memb t) (sym (ok-injective h)) m) [ ]
clean_items-IsCompact limit (v ∷ vs) out h t m =
    let (y, cleaned, h₁) = >>=-eq-ok (clean_text limit v) _ h in
    let (ys, rest, h₂) = >>=-eq-ok (clean_items limit vs) _ h₁ in
    either ys y cleaned (clean_items-IsCompact limit vs ys rest t)
      (subst (Memb t) (sym (ok-injective h₂)) m)
  where
    either :
        (ys : List Text) (y : Text)
        → clean_text limit v ≡ ok y
        → (Memb t ys → IsCompact limit t)
        → Memb t (y ∷ ys)
        → IsCompact limit t
    either ys y cleaned f (here e) =
        subst (IsCompact limit) (sym e) (clean_text-IsCompact limit v y cleaned)
    either ys y cleaned f (there k) = f k

pub record AreCompact (items : PacketItems) : Type 0 where
  pub allowed_paths : (t : Text) → Memb t items.allowed_paths → IsCompact 240 t
  pub acceptance : (t : Text) → Memb t items.acceptance → IsCompact 400 t
  pub constraints : (t : Text) → Memb t items.constraints → IsCompact 400 t
  pub decisions : (t : Text) → Memb t items.decisions → IsCompact 500 t
  pub invariants : (t : Text) → Memb t items.invariants → IsCompact 500 t
  pub non_goals : (t : Text) → Memb t items.non_goals → IsCompact 500 t

abbrev pub items_of : DelegationPacket → PacketItems
items_of p = record {
  allowed_paths = p.allowed_paths;
  acceptance = p.acceptance;
  constraints = p.constraints;
  decisions = p.decisions;
  invariants = p.invariants;
  non_goals = p.non_goals;
}

-- The texts of a packet, each within its limit and with no credential.
pub record IsSafePacket (p : DelegationPacket) : Type 0 where
  pub run_id : fullmatch run_id_pattern p.run_id ≡ true
  pub objective : IsCompact 4000 p.objective
  pub task_name : IsCompact 120 p.task_name
  pub role : IsCompact 120 p.role
  pub provider : IsCompact 40 p.provider
  pub execution_class : IsCompact 40 p.execution_class
  pub model_selector : IsCompact 120 p.model_selector
  pub reasoning_effort : IsCompact 20 p.reasoning_effort
  pub items : AreCompact (items_of p)
