-- ===== src/RateLimit/Script/Decision.antt =====
-- The script against the counters that it reads and writes.
use Prim.Native.Nat.{max}
use route_llm.Prelude.{
  ℕ, ◌+◌, ◌-◌, ◌≤◌, ◌<◌, ◌≡◌, ◌≢◌, sym, ◌∙◌, ap, inl, inr, Bool, true, false, ◌||◌, Option, none,
  some, ltb, if◌then◌else◌, arith, Bool-cases, Option-cases,
}
use route_llm.Prelude.Text.{Text}
use route_llm.RateLimit.Redis.{Redis, IsRedis, Entry, value_of, ttl_of, pttl_reply}
use route_llm.RateLimit.Script.{
  Arguments, Reply, blocked, admitted, or_zero, ttl_or, is_negative, refusal, charge, over, grant,
  admit_script,
}

abbrev ttl_after : ℕ → Option ℕ → ℕ
ttl_after window none = window
ttl_after window (some left) = left

-- A counter that is charged: a window begins with the first charge, and later ones keep its end.
abbrev pub charged : ℕ → ℕ → Option Entry → Entry
charged weight window o = record {
  value = value_of o + weight;
  ttl = some (ttl_after window (ttl_of o));
}

-- The counter has room for the weight.
abbrev pub Fits : ℕ → ℕ → Option Entry → Type 0
Fits weight capacity o = value_of o + weight ≤ capacity

-- What the times to live of the two counters say of a refusal.
abbrev pub wait : ℕ → Option Entry → ℕ
wait window o = ttl_or (pttl_reply o) window

abbrev pub held : Bool → ℕ → ℕ
held true n = n
held false n = 0

refusal-eq :
    (c g : Bool) (ct gt : ℕ)
    → (c || g) ≡ true
    → refusal c g ct gt ≡ blocked (max (held c ct) (held g gt)) (held c 1 + held g 2)
refusal-eq true true ct gt e = ground arith
refusal-eq true false ct gt e = ground arith
refusal-eq false true ct gt e = ground arith
refusal-eq false false ct gt e = cc

module _ (r : Redis) (laws : IsRedis r) (now : ℕ) where
  open r use {Store, entry}

  or_zero-get : (key : Text) (s : Store) → or_zero (r.get now key s) ≡ value_of (entry now key s)
  or_zero-get key s = rw (laws.get_lem now key s) (ground arith)

  over-false :
      (key : Text) (w cap : ℕ) (s : Store)
      → over r now key w cap s ≡ ltb cap (value_of (entry now key s) + w)
  over-false key w cap s = rw (or_zero-get key s)

  module _ (key : Text) (w window : ℕ) (s : Store) where
    pttl-incrby :
        r.pttl now key (r.incrby now key w s).0
        ≡ pttl_reply (
            some
              (record { value = value_of (entry now key s) + w; ttl = ttl_of (entry now key s) }))
    pttl-incrby = laws.pttl_lem now key _ ∙ ap pttl_reply (laws.incrby_same now key w s)

    pub charge-same :
        0 < window
        → entry now key (charge r now key w window s).0 ≡ some (charged w window (entry now key s))
    unfolding charge
    charge-same positive =
        let same = laws.incrby_same now key w s in
        elim (Option-cases (ttl_of (entry now key s))) [
          | inl e ↦ rw (pttl-incrby, e) (laws.pexpire_same now key window _ _ positive same)
          | inr (left, e) ↦ rw (pttl-incrby, e) (same ∙ rw e)
        ]

    pub charge-other :
        (j : Text) → key ≢ j → entry now j (charge r now key w window s).0 ≡ entry now j s
    unfolding charge
    charge-other j ne =
        let s' = (r.incrby now key w s).0 in
        elim (Bool-cases (is_negative (r.pttl now key s'))) [
          | inl e ↦
              rw e (laws.pexpire_other now key j window s' ne ∙ laws.incrby_other now key j w s ne)
          | inr e ↦ rw e (laws.incrby_other now key j w s ne)
        ]

    pub charge-reply : (charge r now key w window s).1 ≡ value_of (entry now key s) + w
    unfolding charge
    charge-reply = laws.incrby_reply now key w s

  module _ (a : Arguments) (s : Store) (ne : a.client_key ≢ a.global_key)
      (client_pos : 0 < a.client_window_ms) (global_pos : 0 < a.global_window_ms) where
    -- The counters of the two keys before the script.
    abbrev client : Option Entry
    client = entry now a.client_key s

    abbrev global : Option Entry
    global = entry now a.global_key s

    abbrev after : Text → Option Entry
    after key = entry now key (admit_script r now a s).0

    -- What an admission leaves: both counters charged, all others as they were.
    pub record IsAdmitted : Type 0 where
      pub reply :
          (admit_script r now a s).1
          ≡ admitted
              (a.client_capacity - (value_of client + a.weight))
              (a.global_capacity - (value_of global + a.weight))
      pub client_after : after a.client_key ≡ some (charged a.weight a.client_window_ms client)
      pub global_after : after a.global_key ≡ some (charged a.weight a.global_window_ms global)
      pub others :
          (key : Text) → a.client_key ≢ key → a.global_key ≢ key → after key ≡ entry now key s

    -- The script, over the counters.
    pub admit_script-eq : admit_script r now a s ≡ (
        let client_blocked = ltb a.client_capacity (value_of client + a.weight) in
        let global_blocked = ltb a.global_capacity (value_of global + a.weight) in
        if client_blocked || global_blocked
        then (
          s,
          refusal client_blocked global_blocked
              (wait a.client_window_ms client)
              (wait a.global_window_ms global),
        )
        else grant r now a s)
    unfolding admit_script
    admit_script-eq = rw (
      or_zero-get a.client_key s,
      or_zero-get a.global_key s,
      laws.pttl_lem now a.client_key s,
      laws.pttl_lem now a.global_key s,
    )

    after-eq :
        (key : Text) {x : Store × Reply}
        → admit_script r now a s ≡ x
        → after key ≡ entry now key x.0
    after-eq key e = ap (λ (y : Store × Reply). entry now key y.0) e

    grant-IsAdmitted : admit_script r now a s ≡ grant r now a s → IsAdmitted
    unfolding grant
    grant-IsAdmitted e =
        let s₁ = (charge r now a.client_key a.weight a.client_window_ms s).0 in
        let untouched = charge-other a.client_key a.weight a.client_window_ms s a.global_key ne in
        record {
          reply = rw e (
              rw (
                charge-reply a.client_key a.weight a.client_window_ms s,
                charge-reply a.global_key a.weight a.global_window_ms s₁,
                untouched,
              ));
          client_after =
              after-eq a.client_key e
              ∙ (charge-other a.global_key a.weight a.global_window_ms s₁ a.client_key
                    (λ k. ne (sym k))
                  ∙ charge-same a.client_key a.weight a.client_window_ms s client_pos);
          global_after =
              after-eq a.global_key e
              ∙ (charge-same a.global_key a.weight a.global_window_ms s₁ global_pos
                  ∙ ap (λ o. some (charged a.weight a.global_window_ms o)) untouched);
          others = λ key n m.
              after-eq key e
              ∙ (charge-other a.global_key a.weight a.global_window_ms s₁ key m
                  ∙ charge-other a.client_key a.weight a.client_window_ms s key n);
        }

    abbrev client_blocked : Bool
    client_blocked = ltb a.client_capacity (value_of client + a.weight)

    abbrev global_blocked : Bool
    global_blocked = ltb a.global_capacity (value_of global + a.weight)

    -- For keys that differ and windows that are not empty, the script admits exactly when both counters have room. It then charges both and no other
    -- counter, and replies with the room that is left. Otherwise it changes nothing, and replies
    -- with the longest wait among the counters without room and with the scope: 1 for the client's
    -- counter, 2 for the global one, 3 for both.
    pub admit_script_decides :
        (Fits a.weight a.client_capacity client
          → Fits a.weight a.global_capacity global
          → IsAdmitted)
        × (¬ (Fits a.weight a.client_capacity client × Fits a.weight a.global_capacity global)
            → admit_script r now a s ≡ (
              s,
              blocked
                  (max
                    (held client_blocked (wait a.client_window_ms client))
                    (held global_blocked (wait a.global_window_ms global)))
                  (held client_blocked 1 + held global_blocked 2),
            ))
    admit_script_decides = (
      λ p q. grant-IsAdmitted (admit_script-eq ∙ ground arith),
      λ n.
          let some_blocked : (client_blocked || global_blocked) ≡ true = ground arith in
          admit_script-eq
          ∙ rw some_blocked (
              ap (λ (x : Reply). (s, x))
                (refusal-eq client_blocked global_blocked (wait a.client_window_ms client)
                  (wait a.global_window_ms global) some_blocked)),
    )
