-- ===== src/RateLimit/Settings.antt =====
-- `RateLimitSettings` of rate_limit.py. The checks of the Redis URL and the environment variables
-- are not modelled.
use route_llm.Prelude.{
  ℕ, ◌≤◌, ◌<◌, ◌≡◌, ◌*◌, Bool, true, false, not, ◌&&◌, Option, none, some, leb, ltb, length, arith,
}
use Prim.Native.Nat.{min}
use route_llm.Prelude.Text.{Text}

pub record RateLimitSettings : Type 0 where
  pub required : Bool
  pub redis_url : Option Text
  pub hmac_secret : Option Text
  -- in units of the clock
  pub redis_timeout : ℕ
  pub client_capacity : ℕ
  pub client_window_seconds : ℕ
  pub global_capacity : ℕ
  pub global_window_seconds : ℕ
  pub explicit_weight : ℕ
  pub adaptive_weight : ℕ

abbrev within : ℕ → ℕ → Bool
within n top = ltb 0 n && leb n top

abbrev given : Option Text → Bool
given none = false
given (some t) = true

abbrev long_secret : Option Text → Bool
long_secret none = true
long_secret (some t) = leb 32 (length t)

abbrev url_ok : (Text → Bool) → Option Text → Bool
url_ok valid_url none = true
url_ok valid_url (some url) = valid_url url

-- The declared bounds and `validate_required_settings`; `second` is the number of units of the clock in
-- a second, and `valid_url` the check of a Redis URL.
unfoldable pub valid_settings : ℕ → (Text → Bool) → RateLimitSettings → Bool
valid_settings second valid_url s =
    within s.redis_timeout (5 * second)
    && within s.client_capacity 1_000_000
    && within s.client_window_seconds 86_400
    && within s.global_capacity 10_000_000
    && within s.global_window_seconds 86_400
    && within s.explicit_weight 1_000_000
    && within s.adaptive_weight 1_000_000
    && not (s.required && not (given s.redis_url && given s.hmac_secret))
    && url_ok valid_url s.redis_url
    && long_secret s.hmac_secret
    && not (ltb (min s.client_capacity s.global_capacity) s.explicit_weight)
    && not (ltb (min s.client_capacity s.global_capacity) s.adaptive_weight)

pub data InferenceKind : Type 0 where
  explicit adaptive : InferenceKind

abbrev pub weight_of : RateLimitSettings → InferenceKind → ℕ
weight_of s explicit = s.explicit_weight
weight_of s adaptive = s.adaptive_weight

pub valid_weight :
    (second : ℕ) (valid_url : Text → Bool) (s : RateLimitSettings) (k : InferenceKind)
    → valid_settings second valid_url s ≡ true
    → (weight_of s k ≤ s.client_capacity) × (weight_of s k ≤ s.global_capacity)
unfolding valid_settings
valid_weight second valid_url s explicit h = (ground arith, ground arith)
valid_weight second valid_url s adaptive h = (ground arith, ground arith)

pub valid_windows :
    (second : ℕ) (valid_url : Text → Bool) (s : RateLimitSettings)
    → valid_settings second valid_url s ≡ true
    → (0 < s.client_window_seconds * 1000) × (0 < s.global_window_seconds * 1000)
unfolding valid_settings
valid_windows second valid_url s h = (ground arith, ground arith)
