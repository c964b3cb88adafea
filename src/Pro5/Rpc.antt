-- ===== src/Pro5/Rpc.antt =====
-- The conversation of `probe_metadata` of pro5.py with a Codex process: messages, lines, and `rpc`. The
-- process is a parameter: what the next line is, from all that was sent so far and the number of
-- lines read. Its start, its end, the limit on time and a failure to write are left out.
use durable_threads.Prelude.{
  ℕ, suc, zero, Text, lit, Bool, false, not, ◌&&◌, Option, none, some, List, [], ◌∷◌, ◌++◌, ok, err,
  if◌then◌else◌, pos, nat_eq, eq_ℤ, is_some, ◌*◌,
}
use durable_threads.Errors.{Res, value_error, runtime_error}
use durable_threads.Json.{Json, Fields, bool, int, float, get_field}
use durable_threads.Pro5.{value_at, fields_of}

-- A request with its number, a notification, and the refusal of a request of the process.
pub data Message : Type 0 where
  request : ℕ → Text → Option Fields → Message
  notice : Text → Message
  denial : Json → Message

pub data Line : Type 0 where
  closed : Line
  garbled : Line
  value : Json → Line

pub record Conversation : Type 0 where
  pub sent : List Message
  pub lines : ℕ
  pub methods : List Text
  pub next_id : ℕ

abbrev pub opened : Conversation
opened = record { sent = []; lines = 0; methods = []; next_id = 0 }

abbrev pub Act {ℓ} : Type ℓ → Type ℓ
Act A = Conversation → Res A × Conversation

unfoldable pub then_act {ℓ κ} :
    {A : Type ℓ} {B : Type κ} → Res A × Conversation → (A → Act B) → Res B × Conversation
then_act (ok a, c) f = f a c
then_act (err e, c) f = (err e, c)

infixl 5 ◌>>=◌ ◌>>◌
abbrev pub ◌>>=◌ {ℓ κ} : {A : Type ℓ} {B : Type κ} → Act A → (A → Act B) → Act B
◌>>=◌ m f c = then_act (m c) f

abbrev pub ◌>>◌ {ℓ} : {B : Type ℓ} → Act (Unit {0}) → Act B → Act B
m >> k = m >>= λ _. k

abbrev pub lift {ℓ} : {A : Type ℓ} → Res A → Act A
lift r c = (r, c)

unfoldable pub send : Message → Act (Unit {0})
send m c = (ok tt, record c { sent = c.sent ++ m ∷ [] })

-- `value == n`, where `True` is 1 and a `float` may be a whole number.
unfoldable pub is_number : Option Json → ℕ → Bool
is_number (some (int z)) n = eq_ℤ z (pos n)
is_number (some (float z)) n = eq_ℤ z (pos (1000 * n))
is_number (some (bool b)) n = nat_eq n (if b then 1 else 0)
is_number _ n = false

-- The refusal of a request that the process makes.
unfoldable pub deny : Fields → Conversation → Conversation
unfolding get_field value_at lit send
deny fs c =
    if is_some (get_field (lit "method") fs) && is_some (get_field (lit "id") fs)
    then (send (denial (value_at (lit "id") fs)) c).1
    else c

abbrev result_in : Fields → Option Json → Res Fields
result_in fs (some e) = err (runtime_error "Codex rejected a method")
result_in fs none = elim (fields_of (value_at (lit "result") fs)) [
  | none ↦ err (value_error "invalid Codex result")
  | some result ↦ ok result
]

-- The answer to request `n`, if the message is one.
unfoldable pub answer_to : ℕ → Fields → Option (Res Fields)
unfolding get_field value_at lit is_number
answer_to n fs =
    if is_number (get_field (lit "id") fs) n && not (is_some (get_field (lit "method") fs))
    then some (result_in fs (get_field (lit "error") fs))
    else none

-- The rest of a round, once the line is read; `more` is the next round.
unfoldable pub on_reply : Option (Res Fields) → Act Fields → Act Fields
on_reply none more c = more c
on_reply (some reply) more c = (reply, c)

unfoldable pub on_message : ℕ → Option Fields → Act Fields → Act Fields
unfolding deny answer_to on_reply
on_message n none more c = (err (value_error "invalid Codex metadata response"), c)
on_message n (some fs) more c = on_reply (answer_to n fs) more (deny fs c)

unfoldable pub on_line : ℕ → Line → Act Fields → Act Fields
unfolding on_message
on_line n closed more c = (err (runtime_error "Codex exited before answering metadata request"), c)
on_line n garbled more c = (err (value_error "Expecting value"), c)
on_line n (value v) more c = on_message n (fields_of v) more c

module _ (process : List Message → ℕ → Line) where
  -- The loop of `rpc` over the lines, with the rounds that are left.
  unfoldable pub await_answer : ℕ → ℕ → Act Fields
  unfolding on_line
  await_answer zero n c = (err (runtime_error "Codex metadata notification limit exceeded"), c)
  await_answer (suc k) n c =
      on_line n (process c.sent c.lines) (await_answer k n) (record c { lines = suc c.lines })

  -- The request that `rpc` writes.
  unfoldable pub ask_for : Text → Option Fields → Conversation → Conversation
  unfolding send
  ask_for method params c = record c {
    sent = c.sent ++ request (suc c.next_id) method params ∷ [];
    methods = c.methods ++ method ∷ [];
    next_id = suc c.next_id;
  }

  unfoldable pub rpc : Text → Option Fields → Act Fields
  rpc method params c = await_answer 1000 (suc c.next_id) (ask_for method params c)
