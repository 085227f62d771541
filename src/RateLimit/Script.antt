-- ===== src/RateLimit/Script.antt =====
-- `_ADMIT_SCRIPT` of rate_limit.py: one atomic decision on the client's and the global window.
pub mod Decision
pub mod Windows
use route_llm.Prelude.{
  ℕ, ◌+◌, ◌-◌, Bool, true, false, ◌||◌, Option, none, some, List, [], ◌∷◌, ltb, if◌then◌else◌,
}
use route_llm.Prelude.Int.{ℤ, pos, negsuc}
use route_llm.Prelude.Text.{Text}
use route_llm.RateLimit.Redis.{Redis}

-- KEYS and ARGV.
pub record Arguments : Type 0 where
  pub client_key : Text
  pub global_key : Text
  pub weight : ℕ
  pub client_capacity : ℕ
  pub client_window_ms : ℕ
  pub global_capacity : ℕ
  pub global_window_ms : ℕ

-- The table that the script returns: `{0, retry_ms, scope}` or
-- `{1, 0, client_capacity - new_client, global_capacity - new_global}`.
pub data Reply : Type 0 where
  blocked : ℕ → ℕ → Reply
  admitted : ℕ → ℕ → Reply

-- `tonumber(… or '0')`
abbrev pub or_zero : Option ℕ → ℕ
or_zero none = 0
or_zero (some n) = n

-- `if ttl < 1 then ttl = window end`
abbrev pub ttl_or : ℤ → ℕ → ℕ
ttl_or (pos n) window = if ltb n 1 then window else n
ttl_or (negsuc n) window = window

abbrev pub is_negative : ℤ → Bool
is_negative (pos n) = false
is_negative (negsuc n) = true

-- The retry time and the scope of a refusal, from the two tests and the two times to live.
abbrev pub refusal : Bool → Bool → ℕ → ℕ → Reply
refusal true true client_ttl global_ttl =
    blocked (if ltb client_ttl global_ttl then global_ttl else client_ttl) 3
refusal true false client_ttl global_ttl = blocked client_ttl 1
refusal false true client_ttl global_ttl = blocked (if ltb 0 global_ttl then global_ttl else 0) 2
refusal false false client_ttl global_ttl = blocked 0 0

module _ (r : Redis) (now : ℕ) where
  open r use {Store}

  -- INCRBY, and PEXPIRE where no time to live is set.
  pub charge : Text → ℕ → ℕ → Store → Store × ℕ
  charge key weight window s =
      let (s', total) = r.incrby now key weight s in
      (if is_negative (r.pttl now key s') then r.pexpire now key window s' else s', total)

  abbrev pub over : Text → ℕ → ℕ → Store → Bool
  over key weight capacity s = ltb capacity (or_zero (r.get now key s) + weight)

  pub grant : Arguments → Store → Store × Reply
  unfolding charge
  grant a s =
      let (s₁, new_client) = charge a.client_key a.weight a.client_window_ms s in
      let (s₂, new_global) = charge a.global_key a.weight a.global_window_ms s₁ in
      (s₂, admitted (a.client_capacity - new_client) (a.global_capacity - new_global))

  unfoldable pub admit_script : Arguments → Store → Store × Reply
  admit_script a s =
      let client_blocked = over a.client_key a.weight a.client_capacity s in
      let global_blocked = over a.global_key a.weight a.global_capacity s in
      if client_blocked || global_blocked
      then (
        s,
        refusal client_blocked global_blocked
            (ttl_or (r.pttl now a.client_key s) a.client_window_ms)
            (ttl_or (r.pttl now a.global_key s) a.global_window_ms),
      )
      else grant a s
