-- ===== src/Tests/Server.antt =====
-- The rate limiter over a model of its server: a store that maps a key to a value and the time at
-- which it expires.
use route_llm.Prelude.{
  ℕ, ◌+◌, ◌-◌, ◌<◌, ◌≡◌, ◌≢◌, inl, inr, refl, ◌∙◌, ap, Option, none, some, ltb, if◌then◌else◌,
  arith, Bool-cases,
}
use route_llm.Prelude.Text.{Text, text_eq, text_eq_iff, text_eq_refl}
use route_llm.RateLimit.Redis.{Redis, IsRedis, Entry, age, value_of, ttl_of, pttl_reply}

-- A value and the time after which it is gone, if there is one.
pub record Counter : Type 0 where
  pub value : ℕ
  pub expires : Option ℕ

abbrev live_until : ℕ → ℕ → Option ℕ → Option Entry
live_until now value none = some (record { value = value; ttl = none })
live_until now value (some end) =
    if ltb end now then none else some (record { value = value; ttl = some (end - now) })

abbrev pub live : ℕ → Option Counter → Option Entry
live now none = none
live now (some c) = live_until now c.value c.expires

abbrev pub Counters : Type 0
Counters = Text → Option Counter

abbrev put : Text → Option Counter → Counters → Counters
put key c s j = if text_eq key j then c else s j

abbrev end_of : ℕ → Option Entry → Option ℕ
end_of now none = none
end_of now (some e) = elim e.ttl [ none ↦ none | some left ↦ some (now + left) ]

abbrev charge_counter : ℕ → ℕ → Option Entry → Option Counter
charge_counter now n o = some (record { value = value_of o + n; expires = end_of now o })

abbrev renew : ℕ → ℕ → Option Entry → Option Counter
renew now ms none = none
renew now ms (some e) = some (record { value = e.value; expires = some (now + ms) })

abbrev value_at : Option Entry → Option ℕ
value_at none = none
value_at (some e) = some e.value

abbrev pub server : Redis
server = record {
  Store = Counters;
  entry = λ now k s. live now (s k);
  get = λ now k s. value_at (live now (s k));
  pttl = λ now k s. pttl_reply (live now (s k));
  incrby =
      λ now k n s. (put k (charge_counter now n (live now (s k))) s, value_of (live now (s k)) + n);
  pexpire = λ now k ms s. put k (renew now ms (live now (s k))) s;
}

live_until-age :
    (now d n : ℕ) (o : Option ℕ) → live_until (now + d) n o ≡ age d (live_until now n o)
live_until-age now d n none = refl
live_until-age now d n (some end) = ground arith

live-age : (now d : ℕ) (o : Option Counter) → live (now + d) o ≡ age d (live now o)
live-age now d none = refl
live-age now d (some c) = live_until-age now d c.value c.expires

put-same : (k : Text) (c : Option Counter) (s : Counters) → put k c s k ≡ c
put-same k c s = rw (text_eq_refl k)

put-other : (k j : Text) (c : Option Counter) (s : Counters) → k ≢ j → put k c s j ≡ s j
put-other k j c s ne = elim (Bool-cases (text_eq k j)) [
  | inl e ↦ absurd (ne ((text_eq_iff k j).0 e))
  | inr e ↦ rw e
]

renew-live :
    (now ms : ℕ) (o : Option Entry) (e : Entry)
    → 0 < ms
    → o ≡ some e
    → live now (renew now ms o) ≡ some (record { value = e.value; ttl = some ms })
renew-live now ms none e p h = cc
renew-live now ms (some f) e p h = ground arith

end_of-live :
    (now n : ℕ) (o : Option Entry)
    → live now (charge_counter now n o) ≡ some (record { value = value_of o + n; ttl = ttl_of o })
end_of-live now n none = refl
end_of-live now n (some e) = go e.ttl
  where
    go :
        (o : Option ℕ)
        → live_until now (e.value + n) (elim o [ none ↦ none | some left ↦ some (now + left) ])
          ≡ some (record { value = e.value + n; ttl = o })
    go none = refl
    go (some left) = ground arith

pub server-IsRedis : IsRedis server
server-IsRedis = record {
  get_lem = λ now k s. get-entry (live now (s k));
  pttl_lem = λ now k s. refl;
  incrby_reply = λ now k n s. refl;
  incrby_same = λ now k n s. ap (live now) (put-same k _ s) ∙ end_of-live now n (live now (s k));
  incrby_other = λ now k j n s ne. ap (live now) (put-other k j _ s ne);
  pexpire_same =
      λ now k ms s e p h. ap (live now) (put-same k _ s) ∙ renew-live now ms (live now (s k)) e p h;
  pexpire_other = λ now k j ms s ne. ap (live now) (put-other k j _ s ne);
  aging = λ now d k s. live-age now d (s k);
}
  where
    get-entry : (o : Option Entry) → value_at o ≡ elim o [ none ↦ none | some e ↦ some e.value ]
    get-entry none = refl
    get-entry (some e) = refl
