-- ===== src/Api/Correlation/Finished.antt =====
-- How the middleware of api/app.py identifies and observes each request.
use route_llm.Prelude.{
  ℕ, ◌≤◌, ◌<◌, ◌≢◌, ◌⊎◌, ◌*◌, ◌+◌, ◌-◌, ◌/◌, ◌==◌, ltb, ==_iff, Bool, false, All, ◌≡◌, sym, ap, ◌∙◌,
  inl, inr, true, Option, none, some, List, [], ◌∷◌, ◌++◌, length, arith, Bool-cases,
}
use route_llm.Prelude.Text.{Text, codes}
use mathlib.Core.List.{append_assoc, append-nil}
use route_llm.Errors.{ok, err, cancelled, ok-injective}
use route_llm.Models.{Result, Error}
use route_llm.Application.World.{
  Environment, System, Act, Observation, after, return, http_started, http_finished, http_event,
}
use route_llm.Application.Inference.{is_cancelled}
use route_llm.Application.Inference.Outcome.{is_cancelled_iff}
use route_llm.Api.Correlation.{
  is_request_id, Reply, identify, identifier, ending, status_class, outcome_of, finished,
  dispatched, correlation_id,
}

-- The identifier that the request has satisfies the pattern, and so has from 1 to 128 characters.
is_request_id-length : (t : Text) → is_request_id t ≡ true → (1 ≤ length t) × (length t ≤ 128)
unfolding is_request_id
is_request_id-length [] h = cc
is_request_id-length (c ∷ cs) h = (omega arith, ground arith)

identifier-is_request_id :
    (supplied : List Text) (fresh : Text)
    → is_request_id fresh ≡ true
    → is_request_id (identifier (identify supplied fresh) fresh) ≡ true
identifier-is_request_id [] fresh h = h
identifier-is_request_id (id ∷ []) fresh h = elim (Bool-cases (is_request_id id)) [
  | inl b ↦ rw b b
  | inr b ↦ rw b h
]
identifier-is_request_id (id ∷ other ∷ more) fresh h = h

-- The class of the status of a response, which is from 100 to 599.
pub data IsClass (status : ℕ) : Text → Type 0 where
  informational : 100 ≤ status → status < 200 → IsClass status (codes "1xx")
  successful : 200 ≤ status → status < 300 → IsClass status (codes "2xx")
  redirection : 300 ≤ status → status < 400 → IsClass status (codes "3xx")
  client_error : 400 ≤ status → status < 500 → IsClass status (codes "4xx")
  server_error : 500 ≤ status → status < 600 → IsClass status (codes "5xx")
  no_status : (t : Text) → (status < 100) ⊎ (600 ≤ status) → IsClass status t

pub data IsOutcome (status : ℕ) : Text → Type 0 where
  success : status < 400 → IsOutcome status (codes "success")
  client_fault : 400 ≤ status → status < 500 → IsOutcome status (codes "client_error")
  server_fault : 500 ≤ status → IsOutcome status (codes "server_error")

-- Started or ended by the middleware.
abbrev pub is_http : Observation → Bool
is_http (http_started route) = true
is_http (http_finished route method class outcome duration) = true
is_http (http_event c id route method status outcome latency) = true
is_http o = false

-- How a request ends: answered, cancelled or failed, with the status, its class and the outcome that
-- are observed.
pub data IsEnd : Result Reply → Bool → ℕ → Text → Text → Type 0 where
  answered :
      (r : Reply) (class outcome : Text)
      → IsClass r.status_code class
      → IsOutcome r.status_code outcome
      → IsEnd (ok r) false r.status_code class outcome
  aborted : IsEnd (err cancelled) true 499 (codes "cancelled") (codes "cancelled")
  failed :
      (e : Error) → e ≢ cancelled → IsEnd (err e) false 500 (codes "5xx") (codes "server_error")

-- The request is observed from its start to one end that tells its result, under one identifier.
pub record IsCorrelated {env : Environment} (route method : Text) (y : System env)
    (result : Result Reply) (z : System env) : Type 0 where
  pub id : Text
  pub lower : 1 ≤ length id
  pub upper : length id ≤ 128
  pub inner : List Observation
  pub started : ℕ
  pub later : ℕ
  pub others : All (λ o. is_http o ≡ false) inner
  pub cancellation : Bool
  pub status : ℕ
  pub class : Text
  pub outcome : Text
  pub ends : IsEnd result cancellation status class outcome
  pub logged :
      z.log
      ≡ y.log
        ++ (http_started route
            ∷ (inner
                ++ (http_finished route method class outcome (later - started)
                    ∷ http_event cancellation id route method status outcome
                        ((later - started) * 1000)
                    ∷ [])))
  pub header : (r : Reply) → result ≡ ok r → r.request_id ≡ id

-- The action only adds to what was observed, and nothing that the middleware observes.
abbrev pub Appends : {env : Environment} {A : Type 0} → System env → Result A × System env → Type 0
Appends y (res, z) =
    (ws : List Observation) × All (λ o. is_http o ≡ false) ws × (z.log ≡ y.log ++ ws)

is_hundred : (s k : ℕ) → (s / 100 == k) ≡ true → (k * 100 ≤ s) × (s < k * 100 + 100)
is_hundred s k h = let e = (==_iff (s / 100) k).0 h in (omega (arith, e), omega (arith, e))

not_hundred : (s k : ℕ) → (s / 100 == k) ≡ false → ¬ ((k * 100 ≤ s) × (s < k * 100 + 100))
not_hundred s k h (a, b) =
    let e : s / 100 ≡ k = omega (arith, a, b) in cc ((==_iff (s / 100) k).1 e, h)

none_of :
    (s : ℕ)
    → ¬ ((1 * 100 ≤ s) × (s < 1 * 100 + 100))
    → ¬ ((2 * 100 ≤ s) × (s < 2 * 100 + 100))
    → ¬ ((3 * 100 ≤ s) × (s < 3 * 100 + 100))
    → ¬ ((4 * 100 ≤ s) × (s < 4 * 100 + 100))
    → ¬ ((100 ≤ s) × (s < 500))
none_of s a b c d (p, q) = ground arith

last-IsClass : (s : ℕ) → ¬ ((100 ≤ s) × (s < 500)) → IsClass s (codes "5xx")
last-IsClass s n = elim (Bool-cases (ltb s 100)) [
  | inl a ↦ no_status _ (inl (ground arith))
  | inr a ↦ elim (Bool-cases (ltb s 600)) [
    | inl b ↦ server_error (ground arith) (ground arith)
    | inr b ↦ no_status _ (inr (ground arith))
  ]
]

status_class-IsClass : (s : ℕ) → IsClass s (status_class s)
status_class-IsClass s = elim (Bool-cases (s / 100 == 1)) [
  | inl a ↦ let (p, q) = is_hundred s 1 a in rw a (informational (omega arith) (omega arith))
  | inr a ↦ elim (Bool-cases (s / 100 == 2)) [
    | inl b ↦ let (p, q) = is_hundred s 2 b in rw (a, b) (successful (omega arith) (omega arith))
    | inr b ↦ elim (Bool-cases (s / 100 == 3)) [
      | inl c ↦
          let (p, q) = is_hundred s 3 c in rw (a, b, c) (redirection (omega arith) (omega arith))
      | inr c ↦ elim (Bool-cases (s / 100 == 4)) [
        | inl d ↦
            let (p, q) = is_hundred s 4 d in
            rw (a, b, c, d) (client_error (omega arith) (omega arith))
        | inr d ↦
            rw (a, b, c, d)
              (last-IsClass s (
                none_of s (not_hundred s 1 a) (not_hundred s 2 b) (not_hundred s 3 c)
                  (not_hundred s 4 d)))
      ]
    ]
  ]
]

outcome_of-IsOutcome : (s : ℕ) → IsOutcome s (outcome_of s)
outcome_of-IsOutcome s = elim (Bool-cases (ltb s 400)) [
  | inl a ↦ rw a (success (ground arith))
  | inr a ↦ elim (Bool-cases (ltb s 500)) [
    | inl b ↦ rw (a, b) (client_fault (ground arith) (ground arith))
    | inr b ↦ rw (a, b) (server_fault (ground arith))
  ]
]

ending-IsEnd :
    (result : Result Reply)
    → IsEnd result (ending result).0 (ending result).1 (ending result).2 (ending result).3
ending-IsEnd (ok r) =
    answered r _ _ (status_class-IsClass r.status_code) (outcome_of-IsOutcome r.status_code)
ending-IsEnd (err e) = elim (Bool-cases (is_cancelled e)) [
  | inl c ↦ rw (is_cancelled_iff e c) aborted
  | inr c ↦ rw c (failed e (λ k. cc (ap is_cancelled k, c)))
]

module _ {env : Environment} (route method : Text) (next : Text → Act env ℕ)
    (grows : (id : Text) (y : System env) → Appends y (next id y)) where
  dispatched-Appends :
      (o : Option Text) (fresh : Text) (y : System env) → Appends y (dispatched o fresh next y)
  dispatched-Appends none fresh y = ([], tt, sym (append-nil y.log))
  dispatched-Appends (some id) fresh y = go (next id y) (grows id y)
    where
      go :
          (p : Result ℕ × System env)
          → Appends y p
          → Appends {A = Reply} y (
              after
                (λ status. return {env = env} (record { status_code = status; request_id = id }))
                p)
      go (ok status, z) h = h
      go (err e, z) h = h

  dispatched-header :
      (o : Option Text) (fresh : Text) (y : System env) (r : Reply)
      → (dispatched o fresh next y).0 ≡ ok r
      → r.request_id ≡ identifier o fresh
  dispatched-header none fresh y r h = ap (λ (w : Reply). w.request_id) (sym (ok-injective h))
  dispatched-header (some id) fresh y r h = go (next id y) h
    where
      go :
          (p : Result ℕ × System env)
          → (after
              (λ status. return {env = env} (record { status_code = status; request_id = id }))
              p).0
            ≡ ok r
          → r.request_id ≡ id
      go (ok status, z) k = ap (λ (w : Reply). w.request_id) (sym (ok-injective k))
      go (err e, z) k = cc

  -- Every request is observed once at its start and once at its end, also if its handler raises or is
  -- cancelled, and the end tells the status, its class and the outcome of what is answered. It has an
  -- identifier of 1 to 128 characters, which the response bears. The identifiers that the process
  -- generates satisfy the pattern, and a handler only adds to what was observed, and none of the
  -- observations of the middleware.
  pub correlation_id-IsCorrelated :
      ((w : env.State) → is_request_id (env.uuid w).1 ≡ true)
      → (supplied : List Text) (y : System env)
      → let (res, z) = correlation_id route method supplied next y in
        IsCorrelated route method y res z
  unfolding correlation_id
  correlation_id-IsCorrelated u supplied y =
      let w : env.State = (env.perf_counter y.world).0 in
      let fresh : Text = (env.uuid w).1 in
      let s : System env = record {
        world = (env.uuid w).0;
        log = y.log ++ http_started route ∷ [];
      } in
      let p : Result Reply × System env = dispatched (identify supplied fresh) fresh next s in
      let (ws, only, e) = dispatched-Appends (identify supplied fresh) fresh s in
      let (a, b) = is_request_id-length _ (identifier-is_request_id supplied fresh (u w)) in
      record {
        id = identifier (identify supplied fresh) fresh;
        lower = a;
        upper = b;
        inner = ws;
        others = only;
        cancellation = (ending p.0).0;
        status = (ending p.0).1;
        class = (ending p.0).2;
        outcome = (ending p.0).3;
        ends = ending-IsEnd p.0;
        started = (env.perf_counter y.world).1;
        later = (env.perf_counter p.1.world).1;
        logged =
            ap
              (λ l.
                l
                ++ finished route method (identifier (identify supplied fresh) fresh)
                    (env.perf_counter y.world).1 (env.perf_counter p.1.world).1 (ending p.0))
              e
            ∙ append_assoc (y.log ++ http_started route ∷ []) ws _
            ∙ append_assoc y.log (http_started route ∷ []) _;
        header = dispatched-header (identify supplied fresh) fresh s;
      }
