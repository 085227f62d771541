-- ===== src/Api/Correlation.antt =====
-- api/app.py: the middleware `correlation_id`, which gives each request its identifier and observes
-- how it ended, and the handlers of exceptions below it.
pub mod Finished
use route_llm.Prelude.{
  ℕ, ◌-◌, ◌*◌, ◌/◌, ◌≤◌, ◌≡◌, refl, sym, ap, ◌∙◌, ◌⊎◌, inl, inr, Bool, true, false, not, ◌&&◌, ◌||◌,
  Option, none, some, List, [], ◌∷◌, ◌++◌, any, all, ltb, leb, ◌==◌, length, is_empty,
  if◌then◌else◌, arith, Bool-cases,
}
use route_llm.Prelude.Text.{Text, codes}
use mathlib.Core.List.{append_assoc, append-nil}
use route_llm.Errors.{ok, err, ok-injective}
use route_llm.Models.{Result, Error}
use route_llm.Application.World.{
  Environment, System, Act, Observation, after, ◌>>=◌, return, raise, lift, ask, attempt, observe,
  http_started, http_finished, http_event,
}
use route_llm.Application.Inference.{is_cancelled, counter}
use route_llm.Api.Responses.{application_error, ErrorResponse}

abbrev is_alphanumeric : ℕ → Bool
is_alphanumeric c = (leb 65 c && leb c 90) || (leb 97 c && leb c 122) || (leb 48 c && leb c 57)

-- One of `A-Za-z0-9._-`.
abbrev is_label : ℕ → Bool
is_label c = is_alphanumeric c || any (λ d. c == d) (codes "._-")

-- `_REQUEST_ID.fullmatch`
unfoldable pub is_request_id : Text → Bool
is_request_id [] = false
is_request_id (c ∷ cs) = is_alphanumeric c && all is_label cs && leb (length cs) 127

-- A response, by its status and the identifier in its header.
pub record Reply : Type 0 where
  pub status_code : ℕ
  pub request_id : Text

-- The identifier of the request, where the header is absent or holds one that is well formed.
abbrev pub identify : List Text → Text → Option Text
identify [] fresh = some fresh
identify (id ∷ []) fresh = if is_request_id id then some id else none
identify (id ∷ other ∷ more) fresh = none

-- `request.state.request_id`
abbrev pub identifier : Option Text → Text → Text
identifier none fresh = fresh
identifier (some id) fresh = id

abbrev pub status_class : ℕ → Text
status_class s =
    if s / 100 == 1
    then codes "1xx"
    else if s / 100 == 2
    then codes "2xx"
    else if s / 100 == 3
    then codes "3xx"
    else if s / 100 == 4
    then codes "4xx"
    else codes "5xx"

abbrev pub outcome_of : ℕ → Text
outcome_of s =
    if ltb s 400
    then codes "success"
    else if ltb s 500
    then codes "client_error"
    else codes "server_error"

-- The variables that the `finally` reads: whether it was cancelled, the status, its class, the outcome.
abbrev pub ending : Result Reply → Bool × ℕ × Text × Text
ending (ok r) = (false, r.status_code, status_class r.status_code, outcome_of r.status_code)
ending (err e) =
    if is_cancelled e
    then (true, 499, codes "cancelled", codes "cancelled")
    else (false, 500, codes "5xx", codes "server_error")

abbrev pub finished : Text → Text → Text → ℕ → ℕ → Bool × ℕ × Text × Text → List Observation
finished route method id started later (c, status, class, outcome) =
    http_finished route method class outcome (later - started)
    ∷ http_event c id route method status outcome ((later - started) * 1000)
    ∷ []

module _ {env : Environment} where
  -- The response to an exception of a class that has a handler; others pass through the middleware,
  -- and are answered outside of it.
  abbrev answered_by : Error → Option ErrorResponse → Act env ℕ
  answered_by e none = raise e
  answered_by e (some r) = if r.status == 500 then raise e else return r.status

  abbrev responded : {A : Type 0} → Result A → Act env ℕ
  responded (ok x) = return 200
  responded (err e) = answered_by e (application_error e)

  -- What runs below the middleware: a handler, and the handlers of its exceptions.
  unfoldable pub handled : {A : Type 0} → Act env A → Act env ℕ
  handled m = do result ← attempt m; responded result

  -- `call_next`
  abbrev pub dispatched : Option Text → Text → (Text → Act env ℕ) → Act env Reply
  dispatched none fresh next = return (record { status_code = 400; request_id = fresh })
  dispatched (some id) fresh next = do
    status ← next id
    return (record { status_code = status; request_id = id })

  abbrev closing : Text → Text → Text → ℕ → Result Reply → Act env Reply
  closing route method id started result y = (
    result,
    record {
      world = (env.perf_counter y.world).0;
      log = y.log ++ finished route method id started (env.perf_counter y.world).1 (ending result);
    },
  )

  -- `correlation_id`
  unfoldable pub correlation_id : Text → Text → List Text → (Text → Act env ℕ) → Act env Reply
  correlation_id route method supplied next = do
    started ← counter
    _ ← observe (http_started route)
    fresh ← ask env.uuid
    result ← attempt (dispatched (identify supplied fresh) fresh next)
    closing route method (identifier (identify supplied fresh) fresh) started result
