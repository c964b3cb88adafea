-- ===== src/Pro5/Asked.antt =====
-- What the probe of pro5.py sends, whatever the process answers.
use durable_threads.Pro5.Moves.{
  IsRead, IsReadOnly, Keeps, Moves, requested, rpc-Moves, send-Moves, stays, then_act-Moves,
}
use durable_threads.Prelude.{
  some, Option, if◌then◌else◌, ℕ, suc, zero, ◌*◌, ◌≤◌, Text, lit, ◌≡◌, refl, sym, subst, List, none,
  some, Option, here, there, length, ok, ℤ, arith, Bool, true, false,
}
use durable_threads.Errors.{Res}
use durable_threads.Pro5.{value_at}
use durable_threads.Json.{truthy, null, Json}
use durable_threads.Pro5.Quota.{Quota}
use durable_threads.Pro5.Rpc.{lift, Message, notice, Line, Conversation, opened, Act, rpc}
use durable_threads.Pro5.Probe.{
  quota_from, is_chatgpt, Listing, list_pages, read_quota, probe_metadata,
}

module _ (process : List Message → ℕ → Line) (now : ℤ) where
  list_pages-Moves :
      (n : ℕ) (cursor : Json) (l : Listing) → Keeps n (n * 1000) (list_pages process now n cursor l)
  unfolding list_pages
  list_pages-Moves zero cursor l c = stays 0 0 c
  list_pages-Moves (suc n) cursor l c =
      then_act-Moves 1 1000 n (n * 1000) (suc n) (suc n * 1000) c _ _ (omega arith) (omega arith)
        (rpc-Moves process (lit "model/list") _ (there (there (here refl))) c)
        (λ page d.
          then_act-Moves 0 0 n (n * 1000) n (n * 1000) d _ _ (omega arith) (omega arith)
            (stays 0 0 d)
            (λ found.
              turn (truthy (some (value_at (lit "nextCursor") page))) _ _
                (list_pages-Moves n (value_at (lit "nextCursor") page) _)))
    where
      turn :
          (b : Bool) (l' : Listing) (more : Act Listing)
          → Keeps n (n * 1000) more
          → Keeps n (n * 1000) (if b then more else lift (ok l'))
      turn true l' more h = h
      turn false l' more h = λ d. stays n (n * 1000) d

  read_quota-Moves :
      (account_type : Option Text) → Keeps 1 1000 (read_quota process now account_type)
  unfolding read_quota
  read_quota-Moves account_type c = choose (is_chatgpt account_type) _ refl
    where
      choose :
          (b : Bool) (r : Res (Option Quota × List Text) × Conversation)
          → r.1 ≡ c
          → Moves 1 1000 c
              (if b
                then (let (limits, c') = rpc process (lit "account/rateLimits/read") none c in
                    (quota_from now limits, c'))
                else r).1
      choose true r e =
          rpc-Moves process (lit "account/rateLimits/read") none (there (there (there (here refl))))
            c
      choose false r e = subst (Moves 1 1000 c) (sym e) (stays 1 1000 c)

  probe_metadata-Moves : Keeps 11 11000 (probe_metadata process now)
  unfolding probe_metadata IsRead requested
  probe_metadata-Moves c =
      then_act-Moves 1 1000 10 10000 11 11000 c _ _ (omega arith) (omega arith)
        (rpc-Moves process (lit "initialize") _ (here refl) c)
        (λ greeting d.
          then_act-Moves 0 0 10 10000 10 10000 d _ _ (omega arith) (omega arith)
            (send-Moves (notice (lit "initialized")) refl refl d)
            (λ done e.
              then_act-Moves 1 1000 9 9000 10 10000 e _ _ (omega arith) (omega arith)
                (rpc-Moves process (lit "account/read") _ (there (here refl)) e)
                (λ account f.
                  then_act-Moves 8 8000 1 1000 9 9000 f _ _ (omega arith) (omega arith)
                    (list_pages-Moves 8 null _ f)
                    (λ listing g.
                      then_act-Moves 1 1000 0 0 1 1000 g _ _ (omega arith) (omega arith)
                        (read_quota-Moves _ g) (λ quota h. stays 0 0 h)))))

  -- From the start, whatever the process answers and however the probe ends: each message sent is a
  -- request of one of four methods that read, the notification, or a refusal; the methods of the
  -- requests are those kept for the report, in order, and there are at most 11; and at most 11000
  -- lines are read.
  pub probe_metadata-IsReadOnly :
      IsReadOnly (probe_metadata process now opened).1
      × (length (probe_metadata process now opened).1.methods ≤ 11)
      × ((probe_metadata process now opened).1.lines ≤ 11000)
  unfolding requested
  probe_metadata-IsReadOnly =
      let moves = probe_metadata-Moves opened in
      (
        moves.keeps (record { reads = λ m i. elim i [ ]; agrees = refl }),
        moves.few_requests,
        moves.few_lines,
      )
