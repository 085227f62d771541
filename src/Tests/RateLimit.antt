-- ===== src/Tests/RateLimit.antt =====
-- Admission at concrete counters, settings and replies.
use Prim.Native.Nat.{max}
use route_llm.Prelude.{
  ℕ, ◌-◌, ◌+◌, ◌*◌, ◌≤◌, ◌<◌, ◌≡◌, ◌≢◌, refl, Bool, true, false, if◌then◌else◌, Option, none, some,
  ltb, arith,
}
use route_llm.Prelude.Text.{Text, codes, text_eq}
use route_llm.Errors.{Scope, ok, err, rate_limit_exceeded}
use route_llm.Deadline.{RequestDeadline, expired}
use route_llm.RateLimit.Redis.{Entry, value_of}
use route_llm.RateLimit.Script.{Arguments, blocked, admitted, admit_script}
use route_llm.RateLimit.Script.Decision.{Fits, wait, held, IsAdmitted, admit_script_decides}
use route_llm.RateLimit.Script.Windows.{
  Limits, IsBounded, History, begin, next, asks, passes, IsWithin, History-IsBounded,
  refused_retries, request,
}
use route_llm.RateLimit.Settings.{RateLimitSettings, adaptive, valid_settings}
use route_llm.RateLimit.Idle.{arguments, begun, valid_settings_admit}
use route_llm.RateLimit.Admission.{
  RawReply, Outcome, replied, encode, interpret, admit, Admits, admit_ok, IsScope, interpret-encode,
}
use route_llm.Tests.Server.{Counters, live, server, server-IsRedis}

abbrev limits : Limits
limits = record {
  global_key = codes "all";
  client_capacity = 10;
  client_window_ms = 60_000;
  global_capacity = 40;
  global_window_ms = 60_000;
}

abbrev empty : Counters
empty key = none

abbrev call : Arguments
call = request limits (codes "a") 4

keys_differ : codes "a" ≢ codes "all"
keys_differ h = cc

positive : 0 < 60_000
positive = omega arith

abbrev entry_of : Text → Option Entry
entry_of key = server.entry 0 key empty

admit_script_decides_example :
    (Fits 4 10 (entry_of (codes "a"))
      → Fits 4 40 (entry_of (codes "all"))
      → IsAdmitted server server-IsRedis 0 call empty keys_differ positive positive)
    × (¬ (Fits 4 10 (entry_of (codes "a")) × Fits 4 40 (entry_of (codes "all")))
        → admit_script server 0 call empty ≡ (
          empty,
          blocked
              (max
                (held
                  (ltb 10 (value_of (entry_of (codes "a")) + 4))
                  (wait 60_000 (entry_of (codes "a"))))
                (held
                  (ltb 40 (value_of (entry_of (codes "all")) + 4))
                  (wait 60_000 (entry_of (codes "all")))))
              (held (ltb 10 (value_of (entry_of (codes "a")) + 4)) 1
                + held (ltb 40 (value_of (entry_of (codes "all")) + 4)) 2),
        ))
admit_script_decides_example =
    admit_script_decides server server-IsRedis 0 call empty keys_differ positive positive

empty-IsBounded : IsBounded server server-IsRedis limits 0 empty
empty-IsBounded = record { global = tt; clients = λ key ne. tt }

-- One request, and then a second.
abbrev after_one : Counters
after_one = (admit_script server 0 call empty).0

one_second : History server server-IsRedis limits 0 empty 1000 after_one
one_second = next (next begin (asks (codes "a") 4 keys_differ refl)) (passes 1000 refl)

History-IsBounded_example : IsBounded server server-IsRedis limits 1000 after_one
History-IsBounded_example =
    History-IsBounded server server-IsRedis limits positive positive empty-IsBounded one_second

-- The client has used 8 of its 10.
abbrev busy : Counters
busy key = if text_eq key (codes "a") then some (record { value = 8; expires = some 500 }) else none

busy-IsBounded : IsBounded server server-IsRedis limits 100 busy
unfolding text_eq
busy-IsBounded = record { global = tt; clients = λ key ne. bounded (text_eq key (codes "a")) }
  where
    bounded :
        (b : Bool)
        → IsWithin 10 60_000
            (live 100 (if b then some (record { value = 8; expires = some 500 }) else none))
    bounded true = (omega arith, omega arith)
    bounded false = tt

busy_refuses : (admit_script server 100 (request limits (codes "a") 4) busy).1 ≡ blocked 400 1
unfolding admit_script text_eq
busy_refuses = refl

refused_retries_example :
    (0 < 400)
    × (left_client : ℕ) × (left_global : ℕ) × ((admit_script server 501
          (request limits (codes "a") 4)
          busy).1
        ≡ admitted left_client left_global)
refused_retries_example =
    refused_retries server server-IsRedis limits positive positive 100 busy (codes "a") 4 400 1 401
      busy-IsBounded keys_differ (omega arith) (omega arith) busy_refuses (omega arith)

abbrev settings : RateLimitSettings
settings = record {
  required = true;
  redis_url = some (codes "rediss://example");
  hmac_secret = some (codes "0123456789abcdef0123456789abcdef");
  redis_timeout = 1;
  client_capacity = 20;
  client_window_seconds = 60;
  global_capacity = 60;
  global_window_seconds = 60;
  explicit_weight = 1;
  adaptive_weight = 3;
}

abbrev any_url : Text → Bool
any_url url = true

settings_valid : valid_settings 4 any_url settings ≡ true
unfolding valid_settings
settings_valid = refl

valid_settings_admit_example :
    let (after, reply) =
      admit_script server 0 (arguments settings adaptive (codes "a") (codes "all")) empty in
    (reply ≡ admitted (20 - 3) (60 - 3))
    × (server.entry 0 (codes "a") after ≡ some (begun 3 60))
    × (server.entry 0 (codes "all") after ≡ some (begun 3 60))
valid_settings_admit_example =
    valid_settings_admit server server-IsRedis 0 empty 4 any_url settings adaptive (codes "a")
      (codes "all") settings_valid keys_differ refl refl

abbrev deadline : RequestDeadline
deadline = record { expires_at = 50 }

abbrev outcome : Outcome
outcome = replied (encode (admitted 5 7))

admits : admit settings deadline 10 11 outcome ≡ ok tt
unfolding admit
admits = refl

admit_ok_example :
    (expired deadline 10 ≡ false) × ((raw : RawReply) × (outcome ≡ replied raw) × Admits raw)
admit_ok_example = admit_ok settings deadline 10 11 outcome admits

interpret-encode_example :
    ((lc lg : ℕ) → blocked 1500 3 ≡ admitted lc lg → interpret (encode (blocked 1500 3)) ≡ ok tt)
    × ((retry code : ℕ) (scope : Scope)
        → blocked 1500 3 ≡ blocked retry code
        → IsScope code scope
        → (seconds : ℕ) × (interpret (encode (blocked 1500 3))
            ≡ err (rate_limit_exceeded seconds scope))
          × (1 ≤ seconds)
          × (retry ≤ seconds * 1000)
          × (seconds * 1000 ≤ max 1000 (retry + 999)))
interpret-encode_example = interpret-encode (blocked 1500 3)

abbrev not_an_address : Text → Option Text
not_an_address t = none

abbrev same : Text → Text
same t = t
