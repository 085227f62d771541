-- ===== src/RateLimit/Redis.antt =====
-- What the admission script relies on of Redis, a server outside the repository: its counters with
-- expiry, as documented for GET, PTTL, INCRBY and PEXPIRE. Times are milliseconds; a script sees
-- one time throughout.
use route_llm.Prelude.{ℕ, ◌+◌, ◌-◌, ◌<◌, ◌≡◌, ◌≢◌, Option, none, some, ltb, if◌then◌else◌}
use route_llm.Prelude.Int.{ℤ, pos, negsuc}
use route_llm.Prelude.Text.{Text}

-- A live counter; `ttl` is what is left of its time to live, if it has one. A key is gone after its
-- expiry: at the very millisecond it is still there, with nothing left.
pub record Entry : Type 0 where
  pub value : ℕ
  pub ttl : Option ℕ

-- A counter after `d` more milliseconds.
abbrev pub age : ℕ → Option Entry → Option Entry
age d none = none
age d (some e) = elim e.ttl [
  | none ↦ some e
  | some left ↦
      if ltb left d then none else some (record { value = e.value; ttl = some (left - d) })
]

abbrev pub value_of : Option Entry → ℕ
value_of none = 0
value_of (some e) = e.value

abbrev pub ttl_of : Option Entry → Option ℕ
ttl_of none = none
ttl_of (some e) = e.ttl

-- The reply of PTTL: -2 without the key, -1 without a time to live.
abbrev pub pttl_reply : Option Entry → ℤ
pttl_reply none = negsuc 1
pttl_reply (some e) = elim e.ttl [ none ↦ negsuc 0 | some left ↦ pos left ]

pub record Redis : Type 1 where
  pub Store : Type 0
  -- the counter at a key, at a time
  pub entry : ℕ → Text → Store → Option Entry
  pub get : ℕ → Text → Store → Option ℕ
  pub pttl : ℕ → Text → Store → ℤ
  pub incrby : ℕ → Text → ℕ → Store → Store × ℕ
  pub pexpire : ℕ → Text → ℕ → Store → Store

-- The documented behaviour.
pub record IsRedis (r : Redis) : Type 0 where
  pub get_lem :
      (now : ℕ) (k : Text) (s : r.Store)
      → r.get now k s ≡ elim (r.entry now k s) [ none ↦ none | some e ↦ some e.value ]
  pub pttl_lem : (now : ℕ) (k : Text) (s : r.Store) → r.pttl now k s ≡ pttl_reply (r.entry now k s)
  pub incrby_reply :
      (now : ℕ) (k : Text) (n : ℕ) (s : r.Store)
      → (r.incrby now k n s).1 ≡ value_of (r.entry now k s) + n
  pub incrby_same :
      (now : ℕ) (k : Text) (n : ℕ) (s : r.Store)
      → r.entry now k (r.incrby now k n s).0
        ≡ some (record { value = value_of (r.entry now k s) + n; ttl = ttl_of (r.entry now k s) })
  pub incrby_other :
      (now : ℕ) (k j : Text) (n : ℕ) (s : r.Store)
      → k ≢ j
      → r.entry now j (r.incrby now k n s).0 ≡ r.entry now j s
  pub pexpire_same :
      (now : ℕ) (k : Text) (ms : ℕ) (s : r.Store) (e : Entry)
      → 0 < ms
      → r.entry now k s ≡ some e
      → r.entry now k (r.pexpire now k ms s) ≡ some (record { value = e.value; ttl = some ms })
  pub pexpire_other :
      (now : ℕ) (k j : Text) (ms : ℕ) (s : r.Store)
      → k ≢ j
      → r.entry now j (r.pexpire now k ms s) ≡ r.entry now j s
  pub aging : (now d : ℕ) (k : Text) (s : r.Store) → r.entry (now + d) k s ≡ age d (r.entry now k s)
