-- ===== src/Pro5/Moves.antt =====
-- How far a conversation of the probe of pro5.py moves: what it sends, and how many requests and
-- lines it takes.
use durable_threads.Prelude.{
  some, Option, is_some, if◌then◌else◌, ℕ, suc, zero, ◌+◌, ◌≤◌, Text, lit, ◌≡◌, refl, sym, ap, ◌∙◌,
  subst, List, none, some, Option, ◌&&◌, [], ◌∷◌, ◌++◌, Memb, here, there, Memb-append, length,
  length-append, ok, err, arith, Bool, true, false, inl, inr,
}
use durable_threads.Errors.{Res}
use mathlib.Core.List.{append-nil}
use durable_threads.Pro5.{fields_of, value_at}
use durable_threads.Json.{get_field, Fields}
use durable_threads.Pro5.Rpc.{
  answer_to, on_message, on_reply, on_line, Message, request, notice, denial, Line, closed, garbled,
  value, Conversation, Act, then_act, send, deny, await_answer, rpc, ask_for,
}

-- The four methods that read metadata.
abbrev pub read_methods : List Text
read_methods =
    lit "initialize" ∷ lit "account/read" ∷ lit "model/list" ∷ lit "account/rateLimits/read" ∷ []

-- A message that starts no turn and approves nothing.
unfoldable pub IsRead : Message → Type 0
unfolding lit
IsRead (request n method params) = Memb method read_methods
IsRead (notice method) = method ≡ lit "initialized"
IsRead (denial v) = Unit

-- The methods of the requests, in order.
unfoldable pub requested : List Message → List Text
requested [] = []
requested (request n method params ∷ ms) = method ∷ requested ms
requested (notice method ∷ ms) = requested ms
requested (denial v ∷ ms) = requested ms

requested-append : (ms ns : List Message) → requested (ms ++ ns) ≡ requested ms ++ requested ns
unfolding requested
requested-append [] ns = refl
requested-append (request n method params ∷ ms) ns = ap (λ r. method ∷ r) (requested-append ms ns)
requested-append (notice method ∷ ms) ns = requested-append ms ns
requested-append (denial v ∷ ms) ns = requested-append ms ns

-- Every message reads, and the methods of the requests are those kept beside them.
pub record IsReadOnly (c : Conversation) : Type 0 where
  pub reads : (m : Message) → Memb m c.sent → IsRead m
  pub agrees : requested c.sent ≡ c.methods

-- From one conversation to a later one, with at most `n` requests and `k` lines more.
pub record Moves (n k : ℕ) (c c' : Conversation) : Type 0 where
  pub keeps : IsReadOnly c → IsReadOnly c'
  pub few_requests : length c'.methods ≤ length c.methods + n
  pub few_lines : c'.lines ≤ c.lines + k

abbrev pub Keeps {ℓ} : {A : Type ℓ} → ℕ → ℕ → Act A → Type 0
Keeps n k act = (c : Conversation) → Moves n k c (act c).1

pub stays : (n k : ℕ) (c : Conversation) → Moves n k c c
stays n k c = record { keeps = λ r. r; few_requests = omega arith; few_lines = omega arith }

Moves-trans :
    (n k n' k' N K : ℕ) (c d e : Conversation)
    → n + n' ≤ N
    → k + k' ≤ K
    → Moves n k c d
    → Moves n' k' d e
    → Moves N K c e
Moves-trans n k n' k' N K c d e h h' p q = record {
  keeps = λ r. q.keeps (p.keeps r);
  few_requests = omega (arith, p.few_requests, q.few_requests, h);
  few_lines = omega (arith, p.few_lines, q.few_lines, h');
}

Moves-weaken :
    (n k n' k' : ℕ) (c d : Conversation) → n ≤ n' → k ≤ k' → Moves n k c d → Moves n' k' c d
Moves-weaken n k n' k' c d h h' p = record {
  keeps = p.keeps;
  few_requests = omega (arith, p.few_requests, h);
  few_lines = omega (arith, p.few_lines, h');
}

pub then_act-Moves {ℓ κ} :
    {A : Type ℓ} {B : Type κ} (n k n' k' N K : ℕ) (c : Conversation) (p : Res A × Conversation)
    (f : A → Act B)
    → n + n' ≤ N
    → k + k' ≤ K
    → Moves n k c p.1
    → ((a : A) → Keeps n' k' (f a))
    → Moves N K c (then_act p f).1
unfolding then_act
then_act-Moves n k n' k' N K c (ok a, d) f h h' m g =
    Moves-trans n k n' k' N K c d (f a d).1 h h' m (g a d)
then_act-Moves n k n' k' N K c (err e, d) f h h' m g =
    Moves-weaken n k N K c d (omega (arith, h)) (omega (arith, h')) m

-- One more message that makes no request.
IsReadOnly-send :
    (m : Message) (c : Conversation)
    → IsRead m
    → requested (m ∷ []) ≡ []
    → IsReadOnly c
    → IsReadOnly (record c { sent = c.sent ++ m ∷ [] })
unfolding requested
IsReadOnly-send m c h none_asked r = record {
  reads = λ x i. elim (Memb-append c.sent (m ∷ []) i) [ inl l ↦ r.reads x l | inr l ↦ only x l ];
  agrees =
      requested-append c.sent (m ∷ [])
      ∙ (ap (λ t. requested c.sent ++ t) none_asked ∙ (append-nil (requested c.sent) ∙ r.agrees));
}
  where
    only : (x : Message) → Memb x (m ∷ []) → IsRead x
    only x (here e) = subst IsRead (sym e) h
    only x (there i) = elim i [ ]

pub send-Moves : (m : Message) → IsRead m → requested (m ∷ []) ≡ [] → Keeps 0 0 (send m)
unfolding send
send-Moves m h e c = record {
  keeps = IsReadOnly-send m c h e;
  few_requests = omega arith;
  few_lines = omega arith;
}

deny-Moves : (fs : Fields) (c : Conversation) → Moves 0 0 c (deny fs c)
unfolding deny IsRead requested
deny-Moves fs c =
    choose (is_some (get_field (lit "method") fs) && is_some (get_field (lit "id") fs))
  where
    choose :
        (b : Bool) → Moves 0 0 c (if b then (send (denial (value_at (lit "id") fs)) c).1 else c)
    choose true = send-Moves (denial (value_at (lit "id") fs)) tt refl c
    choose false = stays 0 0 c

on_reply-Moves :
    (k : ℕ) (reply : Option (Res Fields)) (more : Act Fields)
    → Keeps 0 k more
    → Keeps 0 k (on_reply reply more)
unfolding on_reply
on_reply-Moves k none more h c = h c
on_reply-Moves k (some reply) more h c = stays 0 k c

on_line-Moves :
    (k n : ℕ) (l : Line) (more : Act Fields) → Keeps 0 k more → Keeps 0 k (on_line n l more)
unfolding on_line on_message
on_line-Moves k n closed more h c = stays 0 k c
on_line-Moves k n garbled more h c = stays 0 k c
on_line-Moves k n (value v) more h c = heard (fields_of v)
  where
    heard : (found : Option Fields) → Moves 0 k c (on_message n found more c).1
    heard none = stays 0 k c
    heard (some fs) =
        Moves-trans 0 0 0 k 0 k c (deny fs c) _ (omega arith) (omega arith) (deny-Moves fs c)
          (on_reply-Moves k (answer_to n fs) more h (deny fs c))

module _ (process : List Message → ℕ → Line) where
  await_answer-Moves : (k n : ℕ) → Keeps 0 k (await_answer process k n)
  unfolding await_answer
  await_answer-Moves zero n c = stays 0 0 c
  await_answer-Moves (suc k) n c =
      Moves-trans 0 1 0 k 0 (suc k) c (record c { lines = suc c.lines }) _ (omega arith)
        (omega arith)
        (record {
          keeps = λ r. record { reads = r.reads; agrees = r.agrees };
          few_requests = omega arith;
          few_lines = omega arith;
        })
        (on_line-Moves k n (process c.sent c.lines) (await_answer process k n)
          (await_answer-Moves k n) (record c { lines = suc c.lines }))

  ask_for-Moves :
      (method : Text) (params : Option Fields) (c : Conversation)
      → Memb method read_methods
      → Moves 1 0 c (ask_for process method params c)
  unfolding ask_for IsRead requested
  ask_for-Moves method params c h = record {
    keeps = λ r. record {
      reads = λ x i. elim (Memb-append c.sent (request (suc c.next_id) method params ∷ []) i) [
        | inl l ↦ r.reads x l
        | inr l ↦ only x l
      ];
      agrees =
          requested-append c.sent (request (suc c.next_id) method params ∷ [])
          ∙ ap (λ t. t ++ method ∷ []) r.agrees;
    };
    few_requests = omega (arith, length-append c.methods (method ∷ []));
    few_lines = omega arith;
  }
    where
      only : (x : Message) → Memb x (request (suc c.next_id) method params ∷ []) → IsRead x
      only x (here e) = subst IsRead (sym e) h
      only x (there i) = elim i [ ]

  pub rpc-Moves :
      (method : Text) (params : Option Fields)
      → Memb method read_methods
      → Keeps 1 1000 (rpc process method params)
  unfolding rpc
  rpc-Moves method params h c =
      Moves-trans 1 0 0 1000 1 1000 c (ask_for process method params c) _ (omega arith)
        (omega arith) (ask_for-Moves method params c h)
        (await_answer-Moves 1000 (suc c.next_id) (ask_for process method params c))
