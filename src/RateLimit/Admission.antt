-- ===== src/RateLimit/Admission.antt =====
-- `RedisRateLimiter.admit`, `DisabledRateLimiter.admit` and the identity of a client. The digest of
-- a client (an HMAC), the compressed form of an IP address and the case folding are parameters.
use route_llm.Prelude.{
  ℕ, ◌+◌, ◌*◌, ◌/◌, ◌≤◌, ◌≡◌, ◌≢◌, inl, inr, refl, false, Option, none, some, List, [], ◌∷◌, ◌++◌,
  ◌==◌, is_empty, if◌then◌else◌, arith, ap, ◌∙◌, zero, suc, Bool-cases, Option-cases, ==_iff,
}
use Prim.Native.Nat.{max}
use route_llm.Prelude.Int.{ℤ, pos, negsuc}
use route_llm.Prelude.Text.{Text, codes, strip}
use route_llm.Errors.{
  Scope, client, global, both, ok, err, deadline_exceeded, rate_limit_unavailable,
  rate_limit_exceeded,
}
use route_llm.Models.{Result}
use route_llm.Deadline.{RequestDeadline, expired, constrain_timeout, constrain_timeout_lem}
use route_llm.RateLimit.Settings.{RateLimitSettings}
use route_llm.RateLimit.Script.{Reply, blocked, admitted}

-- What `eval` returns: a value that is no list, or a list of which `int` reads each element or
-- raises (`none`).
pub data RawReply : Type 0 where
  not_a_list : RawReply
  list : List (Option ℤ) → RawReply

-- What becomes of the call of Redis.
pub data Outcome : Type 0 where
  replied : RawReply → Outcome
  timed_out : Outcome
  redis_error : Outcome

-- The reply of the script as the client library hands it over.
abbrev pub encode : Reply → RawReply
encode (blocked retry scope) = list (some (pos 0) ∷ some (pos retry) ∷ some (pos scope) ∷ [])
encode (admitted left_client left_global) =
    list (some (pos 1) ∷ some (pos 0) ∷ some (pos left_client) ∷ some (pos left_global) ∷ [])

-- `{1: "client", 2: "global", 3: "both"}.get(scope_code)`
abbrev pub scope_of : ℕ → Option Scope
scope_of n =
    if n == 1
    then some client
    else if n == 2
    then some global
    else if n == 3
    then some both
    else none

-- `max(1, math.ceil(retry_ms / 1000))`
unfoldable pub retry_after : ℤ → ℕ
retry_after (pos n) = max 1 ((n + 999) / 1000)
retry_after (negsuc n) = 1

abbrev scope_result : ℤ → Option Scope → Result (Unit {0})
scope_result retry none = err rate_limit_unavailable
scope_result retry (some scope) = err (rate_limit_exceeded (retry_after retry) scope)

-- A refusal, from the elements behind the first two.
abbrev refused : ℤ → List (Option ℤ) → Result (Unit {0})
refused retry [] = err rate_limit_unavailable
refused retry (none ∷ rest) = err rate_limit_unavailable
refused retry (some (negsuc n) ∷ rest) = err rate_limit_unavailable
refused retry (some (pos n) ∷ rest) = scope_result retry (scope_of n)

abbrev flagged : ℤ → ℤ → List (Option ℤ) → Result (Unit {0})
flagged (negsuc n) retry rest = err rate_limit_unavailable
flagged (pos n) retry rest =
    if n == 0 then refused retry rest else if n == 1 then ok tt else err rate_limit_unavailable

-- The checks of the reply.
unfoldable pub interpret : RawReply → Result (Unit {0})
interpret not_a_list = err rate_limit_unavailable
interpret (list []) = err rate_limit_unavailable
interpret (list (x ∷ [])) = err rate_limit_unavailable
interpret (list (none ∷ y ∷ rest)) = err rate_limit_unavailable
interpret (list (some x ∷ none ∷ rest)) = err rate_limit_unavailable
interpret (list (some x ∷ some y ∷ rest)) = flagged x y rest

-- `later` is the reading of the clock in the handler of a timeout.
unfoldable pub resolve : RequestDeadline → ℕ → Outcome → Result (Unit {0})
unfolding interpret
resolve d later (replied raw) = interpret raw
resolve d later timed_out =
    if expired d later then err deadline_exceeded else err rate_limit_unavailable
resolve d later redis_error = err rate_limit_unavailable

abbrev granted : Option ℕ → Result (Unit {0}) → Result (Unit {0})
granted none r = err deadline_exceeded
granted (some timeout) r = r

-- `RedisRateLimiter.admit`; Redis is called where the first reading of the clock leaves time.
unfoldable pub admit : RateLimitSettings → RequestDeadline → ℕ → ℕ → Outcome → Result (Unit {0})
unfolding resolve constrain_timeout
admit s d now later outcome =
    granted (constrain_timeout d now s.redis_timeout) (resolve d later outcome)

-- `DisabledRateLimiter.admit`
unfoldable pub admit_disabled : RequestDeadline → ℕ → Result (Unit {0})
admit_disabled d now = if expired d now then err deadline_exceeded else ok tt

abbrev nth : ℕ → Text → ℕ
nth n [] = 0
nth zero (c ∷ cs) = c
nth (suc n) (c ∷ cs) = nth n cs

module _ (compressed : Text → Option Text) (casefold : Text → Text) where
  -- `normalize_client_identity`
  unfoldable pub normalize_client_identity : Text → Text
  normalize_client_identity identity =
      let value = strip identity in
      if is_empty value
      then codes "unknown"
      else elim (compressed value) [ some address ↦ address | none ↦ casefold value ]

  module _ (digest : Text → Text) where
    pub client_key : Text → Text
    client_key identity =
        codes "routellm:rate:{admission}:client:" ++ digest (normalize_client_identity identity)

    pub global_key : Text
    global_key = codes "routellm:rate:{admission}:global"

    -- No client shares the key of the deployment.
    pub client_key-ne-global_key : (identity : Text) → client_key identity ≢ global_key
    unfolding client_key global_key
    client_key-ne-global_key identity e = absurd (omega (arith, ap (nth 26) e))

refused-ne-ok : (retry : ℤ) (rest : List (Option ℤ)) → refused retry rest ≢ ok tt
refused-ne-ok retry [] h = cc
refused-ne-ok retry (none ∷ rest) h = cc
refused-ne-ok retry (some (negsuc n) ∷ rest) h = cc
refused-ne-ok retry (some (pos n) ∷ rest) h = go (scope_of n) h
  where
    go : (o : Option Scope) → scope_result retry o ≡ ok tt → ⊥
    go none k = cc
    go (some scope) k = cc

-- The replies that admit a request.
abbrev pub Admits : RawReply → Type 0
Admits raw =
    (second : ℤ) × (rest : List (Option ℤ)) × (raw ≡ list (some (pos 1) ∷ some second ∷ rest))

flagged_ok :
    (first second : ℤ) (rest : List (Option ℤ)) → flagged first second rest ≡ ok tt → first ≡ pos 1
flagged_ok (negsuc n) second rest h = cc
flagged_ok (pos n) second rest h = elim (Bool-cases (n == 0)) [
  | inl e ↦ absurd (refused-ne-ok second rest (rw e at h))
  | inr e ↦ elim (Bool-cases (n == 1)) [
    | inl k ↦ ap pos ((==_iff n 1).0 k)
    | inr k ↦ cc (rw (e, k) at h)
  ]
]

interpret_ok : (raw : RawReply) → interpret raw ≡ ok tt → Admits raw
unfolding interpret
interpret_ok not_a_list h = cc
interpret_ok (list []) h = cc
interpret_ok (list (x ∷ [])) h = cc
interpret_ok (list (none ∷ y ∷ rest)) h = cc
interpret_ok (list (some x ∷ none ∷ rest)) h = cc
interpret_ok (list (some x ∷ some y ∷ rest)) h =
    (y, rest, ap (λ z. list (some z ∷ some y ∷ rest)) (flagged_ok x y rest h))

resolve_ok :
    (d : RequestDeadline) (later : ℕ) (outcome : Outcome)
    → resolve d later outcome ≡ ok tt
    → (raw : RawReply) × (outcome ≡ replied raw) × Admits raw
unfolding resolve
resolve_ok d later (replied raw) h = (raw, refl, interpret_ok raw h)
resolve_ok d later timed_out h = elim (Bool-cases (expired d later)) [
  | inl e ↦ cc (rw e at h)
  | inr e ↦ cc (rw e at h)
]
resolve_ok d later redis_error h = cc

-- `admit` returns only when there was time to ask Redis and Redis replied that the request is
-- admitted. It fails closed: a timeout, an error of Redis and any malformed reply are refusals.
pub admit_ok :
    (s : RateLimitSettings) (d : RequestDeadline) (now later : ℕ) (outcome : Outcome)
    → admit s d now later outcome ≡ ok tt
    → (expired d now ≡ false) × ((raw : RawReply) × (outcome ≡ replied raw) × Admits raw)
unfolding admit
admit_ok s d now later outcome h = elim (Option-cases (constrain_timeout d now s.redis_timeout)) [
  | inl e ↦ cc (rw e at h)
  | inr (t, e) ↦ (
    ground (arith, (constrain_timeout_lem d now s.redis_timeout).0.1, e),
    resolve_ok d later outcome (rw e at h),
  )
]

-- The numbers by which the script names what it refused for.
pub data IsScope : ℕ → Scope → Type 0 where
  of_client : IsScope 1 client
  of_global : IsScope 2 global
  of_both : IsScope 3 both

scope_of-IsScope : (code : ℕ) (scope : Scope) → IsScope code scope → scope_of code ≡ some scope
scope_of-IsScope _ _ of_client = refl
scope_of-IsScope _ _ of_global = refl
scope_of-IsScope _ _ of_both = refl

blocked-fst : {a b c d : ℕ} → blocked a b ≡ blocked c d → a ≡ c
blocked-fst h = cc

blocked-snd : {a b c d : ℕ} → blocked a b ≡ blocked c d → b ≡ d
blocked-snd h = cc

-- What becomes of a reply of the script: an admission passes, and a refusal tells the client its
-- scope (1 is the client, 2 all, 3 both) and a number of seconds that is at least one, is at least the retry time of the script, and
-- is less than a second longer, unless it is one second.
pub interpret-encode :
    (reply : Reply)
    → ((lc lg : ℕ) → reply ≡ admitted lc lg → interpret (encode reply) ≡ ok tt)
      × ((retry code : ℕ) (scope : Scope)
          → reply ≡ blocked retry code
          → IsScope code scope
          → (seconds : ℕ) × (interpret (encode reply) ≡ err (rate_limit_exceeded seconds scope))
            × (1 ≤ seconds)
            × (retry ≤ seconds * 1000)
            × (seconds * 1000 ≤ max 1000 (retry + 999)))
unfolding interpret retry_after
interpret-encode (admitted lc lg) = (λ a b e. refl, λ retry code scope e. cc)
interpret-encode (blocked retry code) = (
  λ a b e. cc,
  λ retry' code' scope e c.
      let same : retry ≡ retry' = blocked-fst e in
      (
        max 1 ((retry + 999) / 1000),
        ap (scope_result (pos retry))
            (ap scope_of (blocked-snd e) ∙ scope_of-IsScope code' scope c),
        omega arith,
        omega arith,
        omega arith,
      ),
)
