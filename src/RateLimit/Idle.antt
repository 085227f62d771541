-- ===== src/RateLimit/Idle.antt =====
-- The settings of rate_limit.py and its script: what `RedisRateLimiter.admit` passes to `eval`.
use route_llm.Prelude.{
  ℕ, ◌-◌, ◌*◌, ◌≡◌, ◌≢◌, Bool, true, Option, none, some, refl, ◌∙◌, ◌≤◌, ◌+◌, arith,
}
use route_llm.Prelude.Text.{Text}
use route_llm.RateLimit.Redis.{Redis, IsRedis, Entry, value_of}
use route_llm.RateLimit.Settings.{
  RateLimitSettings, InferenceKind, weight_of, valid_settings, valid_weight, valid_windows,
}
use route_llm.RateLimit.Script.{Arguments, admitted, admit_script}
use route_llm.RateLimit.Script.Decision.{Fits, charged, admit_script_decides}

-- KEYS and ARGV of a request of a kind.
abbrev pub arguments : RateLimitSettings → InferenceKind → Text → Text → Arguments
arguments s k client_key global_key = record {
  client_key = client_key;
  global_key = global_key;
  weight = weight_of s k;
  client_capacity = s.client_capacity;
  client_window_ms = s.client_window_seconds * 1000;
  global_capacity = s.global_capacity;
  global_window_ms = s.global_window_seconds * 1000;
}

-- A counter that was charged once, at the start of its window.
abbrev pub begun : ℕ → ℕ → Entry
begun weight window_seconds = record { value = weight; ttl = some (window_seconds * 1000) }

Fits-idle : (w cap : ℕ) (o : Option Entry) → o ≡ none → w ≤ cap → Fits w cap o
Fits-idle w cap none e h = omega arith
Fits-idle w cap (some x) e h = cc

zero_add : (w : ℕ) → 0 + w ≡ w
zero_add w = omega arith

charged-idle :
    (w n : ℕ) (o : Option Entry) → o ≡ none → some (charged w (n * 1000) o) ≡ some (begun w n)
charged-idle w n none e = rw (zero_add w) refl
charged-idle w n (some x) e = cc

admitted-idle :
    (w : ℕ) (o p : Option Entry)
    → o ≡ none
    → p ≡ none
    → (a b : ℕ) → admitted (a - (value_of o + w)) (b - (value_of p + w)) ≡ admitted (a - w) (b - w)
admitted-idle w o p e f a b = rw (e, f, zero_add w) refl

module _ (r : Redis) (laws : IsRedis r) (now : ℕ) (store : r.Store) where
  -- Under valid settings, where both counters are idle, the script admits a request of either kind, tells
  -- what is left of both capacities, and starts both windows with the weight of the request and the
  -- length that is configured in seconds. The two keys differ.
  pub valid_settings_admit :
      (second : ℕ) (valid_url : Text → Bool) (s : RateLimitSettings) (k : InferenceKind)
      (client_key global_key : Text)
      → valid_settings second valid_url s ≡ true
      → client_key ≢ global_key
      → r.entry now client_key store ≡ none
      → r.entry now global_key store ≡ none
      → let (after, reply) = admit_script r now (arguments s k client_key global_key) store in
        (reply ≡ admitted (s.client_capacity - weight_of s k) (s.global_capacity - weight_of s k))
        × (r.entry now client_key after ≡ some (begun (weight_of s k) s.client_window_seconds))
        × (r.entry now global_key after ≡ some (begun (weight_of s k) s.global_window_seconds))
  valid_settings_admit second valid_url s k client_key global_key v ne c g =
      let (fits_client, fits_global) = valid_weight second valid_url s k v in
      let (p, q) = valid_windows second valid_url s v in
      let done =
        (admit_script_decides r laws now (arguments s k client_key global_key) store ne p q).0
          (Fits-idle _ _ _ c fits_client) (Fits-idle _ _ _ g fits_global) in
      (
        done.reply ∙ admitted-idle (weight_of s k) _ _ c g s.client_capacity s.global_capacity,
        done.client_after ∙ charged-idle (weight_of s k) s.client_window_seconds _ c,
        done.global_after ∙ charged-idle (weight_of s k) s.global_window_seconds _ g,
      )
