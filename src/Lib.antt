-- ===== src/Lib.antt =====
-- Verification library of the adaptive LLM gateway (src/adaptive_llm_gateway), which answers an
-- inference request with the cheapest model that is expected to answer it acceptably.
--
-- A request passes the limits of the API and the admission of the rate limiter, its features are
-- extracted, a predictor gives each model a probability of an acceptable answer, the policy
-- selects a model, and the response is validated against the output contract of the request. All
-- of this happens within one deadline.
--
-- Files and code, by the paths under src/adaptive_llm_gateway:
--   Prelude           tests, lists, orders, integers and texts that the other files share
--   Decimal           decimal.Decimal: values, their order, arithmetic under a context
--   Errors, Models    errors.py; models/schemas.py
--   Pricing           pricing/calculator.py
--   Registry          registry/model_registry.py and providers/resolver.py
--   Routing           routing/policy.py (Threshold, Policy), routing/features.py (Features),
--                     routing/quality_features.py (Allowance), routing/service.py (Service),
--                     routing/predictor.py (Artifact: the metadata and the loading; Predictor)
--                     over the features of routing/quality_features.py (Canonical)
--   Validation        validation/contracts.py (Contract), validation/validator.py (Json, Depth,
--                     Validator); Json/Standard and Depth/Nesting say apart from the code which
--                     documents its hooks accept and which texts are nested too deep
--   Deadline, Limits  request_deadline.py; api/limits.py
--   RateLimit         rate_limit.py: the Lua script (Script) over what it relies on of Redis
--                     (Redis), the settings (Settings), the reading of a reply (Admission)
--   Application       application/service.py (Inference), application/adaptive.py (Adaptive),
--                     application/chat.py (Chat) and application/adaptive_config.py (Configured), over
--                     the world that they run in (World) and the records of telemetry/contracts.py
--                     (World, Activity)
--   Providers         providers/vercel.py (Vercel) over the JSON of a reply (Body),
--                     providers/gateway_config.py (Portfolio), providers/fake.py and bootstrap.py
--                     (Bootstrap)
--   Api               api/schemas.py (Schemas), the handlers of api/routes.py (Routes, Operations),
--                     the middleware (Correlation) and the responses to exceptions (Responses) of
--                     api/app.py
--   Telemetry         telemetry/query.py (Cursor, Pages) and the query of the activity in
--                     persistence/repository.py
--   Tests             the theorems at concrete inputs
--
-- Data: an exception is a value of Errors.Error and a fallible function returns a Result. A text
-- is its list of code points. A float that is compared is an integer number of the smallest
-- positive double (2 ** -1074), which every finite double is a multiple of. A time is a number of
-- units of the clock, and each reading of the clock is an argument. Decimals keep coefficient and
-- exponent; their context has no limits of the exponent, which the bounded prices never reach.
--
-- A service of Application is an action on a system: the world and the list of observations. It
-- may raise, and what it did before remains. A response of an adapter, a reading of a clock and
-- the reply of the telemetry repository come from the world. Cancellation is an error that the
-- handlers of `Exception` let pass.
--
-- An HTTP request passes the middleware, which gives it an identifier and observes its start and
-- end; the handler checks limits and admission and calls a service; what it raises becomes a
-- response. The adapter of Providers is one of the adapters that the services call through
-- World.Environment, and Bootstrap registers it with the models of the portfolio.
--
-- Outside the code, and so parameters: clocks, the telemetry repository and the adapters as the
-- services see them (World.Environment), the HTTP client (Providers.Vercel.Client), json.loads
-- before its hooks, the regular expressions of the features, the quality predictor as the service
-- sees it, the pipeline of scikit-learn and the conversions to float that it is given
-- (Routing.Predictor, Routing.Canonical), the eligibility filter, the HMAC, the parser of IP
-- addresses and case folding, times, UUIDs and Base64 (Telemetry.Cursor.Codec), Path
-- (Application.Configured), the rows of the database, SHA-256 and pickle
-- (Routing.Artifact.Loader.Library), and Redis, whose documented behaviour RateLimit/Redis.antt
-- states.
--
-- Fuel: count_digits has the number itself, of which the digits are fewer; strip_zeros has the
-- difference of the exponents, which is as many zeros as may be dropped; pages has one page more
-- than there are rows. The loop over the candidates is a recursion on their list.
--
-- Not modelled: what the framework does of the HTTP layer (the matching of routes, the lifespan,
-- the parsing of a body before its schema), the handlers that read telemetry and evaluations, the
-- connections of runtime.py, the diagnostics of a rejected completion, the other SQL of
-- persistence, the rendering of metrics and logs, the writing of predictor artifacts, and the
-- offline parts: benchmarks, evaluation, experiments and the training of the predictor.
pub mod Prelude
pub mod Decimal
pub mod Errors
pub mod Models
pub mod Pricing
pub mod Registry
pub mod Routing
pub mod Validation
pub mod Deadline
pub mod Limits
pub mod RateLimit
pub mod Application
pub mod Providers
pub mod Api
pub mod Tests
pub mod Telemetry
