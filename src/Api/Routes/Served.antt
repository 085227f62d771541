-- ===== src/Api/Routes/Served.antt =====
-- What the handlers of api/routes.py answer, and to whom.
use route_llm.Prelude.{◌≡◌, refl, sym, ap, ◌∙◌, subst, some, List}
use route_llm.Prelude.Int.{pos}
use route_llm.Prelude.Text.{Text, codes}
use route_llm.Errors.{ok, err, ok-injective}
use route_llm.Models.{InferenceResponse, Result}
use route_llm.Deadline.{RequestDeadline, new_deadline}
use route_llm.Limits.{validate_request}
use route_llm.Routing.Threshold.{number, finite}
use route_llm.Application.World.{Environment, System, Observation, after, ◌>>=◌, return}
use route_llm.Application.Inference.Service.{generate}
use route_llm.Application.Inference.Service.Served.{IsServed, generate-IsServed}
use route_llm.RateLimit.Settings.{InferenceKind, explicit}
use route_llm.Api.Schemas.{InferencePayload, PublicResponse, public_response}
use route_llm.Api.Routes.{Application, guarded, inference}

module _ {env : Environment} (a : Application env) (peer id : Text) where
  -- The limiter admitted the peer, before anything was observed; what followed was `rest`.
  pub record IsAdmitted {A : Type 0} (kind : InferenceKind)
      (body : RequestDeadline → System env → Result A × System env) (y : System env)
      (result : Result A × System env) : Type 0 where
    pub deadline : RequestDeadline
    pub before : System env
    pub later : System env
    pub silent : before.log ≡ y.log
    pub admitted : a.admit peer kind deadline before ≡ (ok tt, later)
    pub rest : result ≡ body deadline later

  pub guarded-IsAdmitted :
      {A : Type 0} (kind : InferenceKind)
      (body : RequestDeadline → System env → Result A × System env) (y : System env) (x : A)
      → (guarded a peer id kind body y).0 ≡ ok x
      → IsAdmitted kind body y (guarded a peer id kind body y)
  guarded-IsAdmitted {A} kind body y x h =
      bound
        (new_deadline (env.monotonic y.world).1
          (number (finite (pos a.inference_service.inference_deadline))))
        h
    where
      z : System env
      z = record { world = (env.monotonic y.world).0; log = y.log }

      admitted :
          (d : RequestDeadline) (p : Result (Unit {0}) × System env)
          → a.admit peer kind d z ≡ p
          → (after (λ u. body d) p).0 ≡ ok x
          → IsAdmitted kind body y (after (λ u. body d) p)
      admitted d (ok tt, w) e k = record {
        deadline = d;
        before = z;
        later = w;
        silent = refl;
        admitted = e;
        rest = refl;
      }
      admitted d (err f, w) e k = cc

      bound :
          (r : Result RequestDeadline)
          → (after {env = env} (λ d. a.admit peer kind d >>= λ u. body d) (r, z)).0 ≡ ok x
          → IsAdmitted kind body y
              (after {env = env} (λ d. a.admit peer kind d >>= λ u. body d) (r, z))
      bound (ok d) k = admitted d (a.admit peer kind d z) refl k
      bound (err f) k = cc

  module _ (p : InferencePayload) (x : PublicResponse) (y : System env) where
    -- The request is within the limits, its peer was admitted, and then it was served.
    pub record IsInference (later : List Observation) : Type 0 where
      pub limited : validate_request a.request_limits p.request ≡ ok tt
      pub deadline : RequestDeadline
      pub before : System env
      pub admission : System env
      pub silent : before.log ≡ y.log
      pub admitted : a.admit peer explicit deadline before ≡ (ok tt, admission)
      pub response : InferenceResponse
      pub served :
          IsServed a.inference_service p.model_id
            (some id)
            (codes "explicit")
            admission.log
            response
            later
      pub shown : x ≡ public_response id response

    -- What the handler runs once the request is admitted.
    abbrev served_within : RequestDeadline → System env → Result PublicResponse × System env
    served_within d z =
        after (λ r. return {env = env} (public_response id r))
          (generate a.inference_service p.model_id p.request (some id) (some d) (codes "explicit")
            z)

    served_within-IsServed :
        (d : RequestDeadline) (z : System env)
        → (served_within d z).0 ≡ ok x
        → (r : InferenceResponse) × IsServed a.inference_service p.model_id
            (some id)
            (codes "explicit")
            z.log
            r
            (served_within d z).1.log
          × (x ≡ public_response id r)
    served_within-IsServed d z h =
        go
          (generate a.inference_service p.model_id p.request (some id) (some d) (codes "explicit")
            z)
          (λ r.
            generate-IsServed a.inference_service p.model_id p.request (some id) (codes "explicit")
              r (some d) z)
          h
      where
        go :
            (q : Result InferenceResponse × System env)
            → ((r : InferenceResponse)
                → q.0 ≡ ok r
                → IsServed a.inference_service p.model_id
                    (some id)
                    (codes "explicit")
                    z.log
                    r
                    q.1.log)
            → (after (λ r. return {env = env} (public_response id r)) q).0 ≡ ok x
            → (r : InferenceResponse) × IsServed a.inference_service p.model_id
                (some id)
                (codes "explicit")
                z.log
                r
                (after (λ r. return {env = env} (public_response id r)) q).1.log
              × (x ≡ public_response id r)
        go (ok r, w) f k = (r, f r refl, sym (ok-injective k))
        go (err e, w) f k = cc

    -- An answer of /v1/inference is given only to a request within the limits, whose peer the limiter
    -- admitted before anything else was observed. It shows the response of the one successful attempt
    -- by the enabled model that the payload names, recorded under the identifier of the request.
    pub inference-IsInference :
        (inference a peer id p y).0 ≡ ok x → IsInference (inference a peer id p y).1.log
    unfolding inference
    inference-IsInference h = go (validate_request a.request_limits p.request) refl h
      where
        go :
            (v : Result (Unit {0}))
            → validate_request a.request_limits p.request ≡ v
            → let q : Result PublicResponse × System env =
                after {env = env} (λ u. guarded a peer id explicit served_within) (v, y) in
              q.0 ≡ ok x → IsInference q.1.log
        go (ok tt) e k =
            let g : IsAdmitted explicit served_within y
                (guarded a peer id explicit served_within y) =
              guarded-IsAdmitted explicit served_within y x k in
            let (r, s, f) =
              served_within-IsServed g.deadline g.later
                (sym (ap (λ (q : Result PublicResponse × System env). q.0) g.rest) ∙ k) in
            record {
              limited = e;
              deadline = g.deadline;
              before = g.before;
              admission = g.later;
              silent = g.silent;
              admitted = g.admitted;
              response = r;
              served =
                  subst
                    (λ (q : Result PublicResponse × System env).
                      IsServed a.inference_service p.model_id (some id) (codes "explicit")
                        g.later.log r q.1.log)
                    (sym g.rest) s;
              shown = f;
            }
        go (err e') e k = cc
