-- ===== src/Slave/ClientRequestHandler/Attempts.antt =====
-- The calls of the task of a request (src/slave/ClientRequestHandler.cc), one after the other.
use universal_db.Base.{
  ℕ, All, ◌+◌, ◌<◌, ◌≡◌, refl, sym, ap, subst, ◌-◌, true, false, Option, none, some, List, [], ◌∷◌,
  ◌++◌, arith, length, is_some,
}
use universal_db.Base.Eq.{◌==◌, nat_eq}
use universal_db.Base.Bytes.{Bytes, bytes_eq}
use universal_db.Base.Assoc.{has}
use universal_db.Base.Result.{Result, ok, Ensures, Ensures-ok, Ensures-bind, ◌>>=◌}
use universal_db.Net.EndpointId.{EndpointId}
use universal_db.Proto.Client.{ClientRequest, ClientResponse, success}
use universal_db.Async.Queue.{Wait, terminate, again}
use universal_db.Paxos.Single.{SinglePaxosHandler}
use universal_db.Slave.ClientRequestHandler.{
  Tablet, TabletState, RequestTask, retry_limit, request_task,
}
use universal_db.Slave.ClientRequestHandler.Calls.{
  Step, wrote, has_read, given_up, rejected, proposed, request_task-Step,
}

-- Of the calls of a task, the ones that did not end it have given no answer, and the one that has
-- ended it has given one.
abbrev pub Answers : EndpointId → Bytes → List (Tablet × Tablet) × Option (Tablet × Tablet) → Type 0
Answers endpoint_id request_id (earlier, none) = true ≡ false
Answers endpoint_id request_id (earlier, some (m, m')) =
    All (λ p. p.1.responses ≡ p.0.responses) earlier
    × ((response : ClientResponse) × (m'.responses ≡ m.responses ++ (endpoint_id, response) ∷ [])
        × (response.error_code ≡ success → has request_id m.state.request_id_map ≡ true))

module _ (instance_provider : ℕ → TabletState → Result SinglePaxosHandler) (random : ℕ → ℕ) where
  -- The calls of a task, each on the tablet as it is then, up to the one that ends the task: the
  -- tablets before and after the calls that did not end it, and those before and after the last.
  unfoldable pub attempts :
      RequestTask → List Tablet → Result (List (Tablet × Tablet) × Option (Tablet × Tablet))
  attempts t [] = ok ([], none)
  attempts t (m ∷ ms) = request_task instance_provider random t m >>= λ r. elim r.2 [
    | terminate ↦ ok ([], some (m, r.1))
    | again _ ↦ attempts r.0 ms >>= λ q. ok ((m, r.1) ∷ q.0, q.1)
  ]

  abbrev EndsWith :
      EndpointId → Bytes → RequestTask → Tablet → List Tablet → RequestTask × Tablet × Wait → Type 0
  EndsWith endpoint_id request_id t m ms r = Ensures (Answers endpoint_id request_id) (elim r.2 [
    | terminate ↦ ok ([], some (m, r.1))
    | again _ ↦ attempts r.0 ms >>= λ q. ok ((m, r.1) ∷ q.0, q.1)
  ])

  Answers-cons :
      (endpoint_id : EndpointId) (request_id : Bytes) (m m' : Tablet)
      (earlier : List (Tablet × Tablet)) (last : Option (Tablet × Tablet))
      → m'.responses ≡ m.responses
      → Answers endpoint_id request_id (earlier, last)
      → Answers endpoint_id request_id ((m, m') ∷ earlier, last)
  Answers-cons endpoint_id request_id m m' earlier none same a = a
  Answers-cons endpoint_id request_id m m' earlier (some (n, n')) same (all, a) = ((same, all), a)

  attempts_rest :
      (ms : List Tablet) (t : RequestTask) (m : Tablet) (r : RequestTask × Tablet × Wait)
      → Step instance_provider random t m r
      → ((t.retry_count == retry_limit) ≡ false
          → Ensures
              (Answers t.endpoint_id t.message.request_id)
              (attempts (record t { retry_count = t.retry_count + 1 }) ms))
      → EndsWith t.endpoint_id t.message.request_id t m ms r
  attempts_rest ms t m r (wrote index there type e) rest =
      subst (EndsWith t.endpoint_id t.message.request_id t m ms) (sym e)
        (tt, (_, refl, λ _. ap is_some there))
  attempts_rest ms t m r (has_read index entry value kvs there type found ran e) rest =
      subst (EndsWith t.endpoint_id t.message.request_id t m ms) (sym e)
        (tt, (_, refl, λ _. ap is_some there))
  attempts_rest ms t m r (given_up absent limit e) rest =
      subst (EndsWith t.endpoint_id t.message.request_id t m ms) (sym e)
        (tt, (_, refl, λ h. absurd (ground (arith, h))))
  attempts_rest ms t m r (rejected absent late e) rest =
      subst (EndsWith t.endpoint_id t.message.request_id t m ms) (sym e)
        (tt, (_, refl, λ h. absurd (ground (arith, h))))
  attempts_rest ms t m r (proposed entry multi sent absent more timely is_entry ran e) rest =
      subst (EndsWith t.endpoint_id t.message.request_id t m ms) (sym e) (
        Ensures-bind _ (attempts (record t { retry_count = t.retry_count + 1 }) ms) _ λ q f.
          Answers-cons t.endpoint_id t.message.request_id m
            (record m { multi = multi; drawn = m.drawn + 1; sent = m.sent ++ sent }) q.0 q.1 refl
            (Ensures-ok _ (attempts (record t { retry_count = t.retry_count + 1 }) ms) (rest more)
              f))

  attempts-Answers :
      (ms : List Tablet) (t : RequestTask) (left : ℕ)
      → t.retry_count + left ≡ retry_limit
      → left < length ms
      → Ensures (Answers t.endpoint_id t.message.request_id) (attempts t ms)
  unfolding attempts
  attempts-Answers [] t left e h = absurd (omega arith)
  attempts-Answers (m ∷ ms) t left e h =
      Ensures-bind _ (request_task instance_provider random t m) _ λ r f.
        attempts_rest ms t m r
          (Ensures-ok _ (request_task instance_provider random t m)
            (request_task-Step instance_provider random t m) f)
          λ more.
            attempts-Answers ms (record t { retry_count = t.retry_count + 1 }) (left - 1)
              (ground (arith, e, more)) (ground (arith, e, more, h))

  -- However the tablet changes in between, a request is answered within retry_limit + 1 calls of
  -- its task, unless a call throws, and exactly once: the calls before the one that ends the task
  -- give no answer, and that one gives one answer, to the endpoint that asked, which reports
  -- success only if the request's id was then in the map of the requests in the log.
  pub request_answered :
      (endpoint_id : EndpointId) (message : ClientRequest) (ms : List Tablet)
      → retry_limit < length ms
      → Ensures
          (Answers endpoint_id message.request_id)
          (attempts (record { endpoint_id = endpoint_id; message = message; retry_count = 0 }) ms)
  request_answered endpoint_id message ms h =
      attempts-Answers ms (record { endpoint_id = endpoint_id; message = message; retry_count = 0 })
        retry_limit refl h
