-- ===== src/VerifyRequests/Notifier.antt =====
-- The live results of a verifier: backend/src/services/verifyRequest/notifier.service.ts. The map
-- `_pending` is a function, and the sessions with an open connection are given. What was pushed is
-- kept, the newest first.
use zk_auth.Prelude.{
  ℕ, ◌+◌, Bool, Option, none, some, List, ◌∷◌, ◌==◌, ltb, select, [], if◌then◌else◌,
}
use zk_auth.VerifyRequests.{Publication, approval, rejection}

pub record PendingEntry : Type 0 where
  pub verifier_session_id : ℕ
  pub expires_at : ℕ

-- A result with the session it was pushed to.
pub record Push : Type 0 where
  pub to_session : ℕ
  pub result : Publication

pub record Notifier : Type 0 where
  pub entry : ℕ → Option PendingEntry
  pub pushed : List Push

-- The id of the request, from the name of the channel.
abbrev pub request_of : Publication → ℕ
request_of (approval id _ _) = id
request_of (rejection id _) = id

abbrev pub register_verifier : ℕ → ℕ → ℕ → ℕ → Notifier → Notifier
register_verifier now id session ttl_ms n = record n {
  entry = λ j.
      if id == j
      then some (record { verifier_session_id = session; expires_at = now + ttl_ms })
      else n.entry j;
}

abbrev pub delete_entry : ℕ → Notifier → Notifier
delete_entry id n = record n { entry = λ j. if id == j then none else n.entry j }

-- The timer drops the entries that have expired.
abbrev pub live_entry : ℕ → Option PendingEntry → Option PendingEntry
live_entry now none = none
live_entry now (some e) = if ltb e.expires_at now then none else some e

abbrev pub sweep : ℕ → Notifier → Notifier
sweep now n = record n { entry = λ j. live_entry now (n.entry j) }

-- `pushToSession`: only where the connection is open.
abbrev pub push_result : (ℕ → Bool) → ℕ → Publication → Notifier → Notifier
push_result is_open s p n =
    if is_open s then record n { pushed = record { to_session = s; result = p } ∷ n.pushed } else n

abbrev pub deliver : (ℕ → Bool) → Publication → Option PendingEntry → Notifier → Notifier
deliver is_open p none n = n
deliver is_open p (some e) n =
    delete_entry (request_of p) (push_result is_open e.verifier_session_id p n)

-- A message on the channel of a request.
abbrev pub on_message : (ℕ → Bool) → Publication → Notifier → Notifier
on_message is_open p n = deliver is_open p (n.entry (request_of p)) n

-- What the service hears after a verifier was registered.
pub data Signal : Type 0 where
  message : Publication → Signal
  timer : ℕ → Signal

abbrev pub hear : (ℕ → Bool) → Signal → Notifier → Notifier
hear is_open (message p) n = on_message is_open p n
hear is_open (timer now) n = sweep now n

abbrev pub hear_all : (ℕ → Bool) → List Signal → Notifier → Notifier
hear_all is_open [] n = n
hear_all is_open (s ∷ ss) n = hear_all is_open ss (hear is_open s n)

-- The results about a request that were pushed.
abbrev pub pushed_about : ℕ → Notifier → List Push
pushed_about id n = select (λ q. request_of q.result == id) n.pushed
