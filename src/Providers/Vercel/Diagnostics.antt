-- ===== src/Providers/Vercel/Diagnostics.antt =====
-- providers/vercel.py: what an error of the gateway keeps of a reply, `_response_identifiers` and
-- `_error_diagnostics`. The dict is the list of its items.
use route_llm.Prelude.{ℕ, ◌≡◌, true, Option, none, some, List, [], ◌∷◌, ◌++◌}
use route_llm.Prelude.Text.{Text, codes}
use route_llm.Providers.Body.{Value, Fields, object, string, get, or, safe_value, is_safe}
use route_llm.Providers.Vercel.{HttpResponse}

pub data Diagnostic : Type 0 where
  number : ℕ → Diagnostic
  text : Text → Diagnostic

-- `if value is not None: diagnostics[field] = value`
abbrev kept : Text → Option Text → List (Text × Diagnostic)
kept field none = []
kept field (some t) = (field, text t) ∷ []

-- `_safe_value(response.headers.get(header))`
abbrev safe_header : Option Text → Option Text
safe_header none = none
safe_header (some t) = safe_value (string t)

-- `_response_identifiers`
unfoldable pub response_identifiers : HttpResponse → List (Text × Diagnostic)
response_identifiers h =
    (codes "http_status", number h.status_code)
      ∷ kept (codes "vercel_request_id") (safe_header (h.header (codes "x-vercel-id")))
    ++ kept (codes "request_id") (safe_header (h.header (codes "x-request-id")))
    ++ kept (codes "trace_id") (safe_header (h.header (codes "traceparent")))

-- `_safe_value(nested.get("code") or nested.get("type"))`, for a dict.
abbrev nested_code : Value → Option Text
nested_code (object fs) = safe_value (or (get (codes "code") fs) (get (codes "type") fs))
nested_code v = none

-- The loop over the three keys, which ends at the first code.
abbrev upstream_code : List Text → Fields → Option Text
upstream_code [] e = none
upstream_code (key ∷ keys) e = elim (nested_code (get key e)) [
  | none ↦ upstream_code keys e
  | some t ↦ some t
]

abbrev error_keys : List Text
error_keys = codes "provider_error" ∷ codes "providerError" ∷ codes "cause" ∷ []

abbrev of_error : Value → List (Text × Diagnostic)
of_error (object e) =
    kept (codes "gateway_error_code") (safe_value (get (codes "code") e))
    ++ kept (codes "gateway_error_type") (safe_value (get (codes "type") e))
    ++ kept (codes "upstream_error_code") (upstream_code error_keys e)
of_error v = []

-- `_error_diagnostics`
unfoldable pub error_diagnostics : HttpResponse → Option Value → List (Text × Diagnostic)
unfolding response_identifiers
error_diagnostics h (some (object fs)) = response_identifiers h ++ of_error (get (codes "error") fs)
error_diagnostics h v = response_identifiers h

-- A text among the diagnostics has at most 256 characters of the safe ones.
abbrev pub IsSafe : Text × Diagnostic → Type 0
IsSafe (field, number n) = Unit
IsSafe (field, text t) = is_safe 255 t ≡ true
