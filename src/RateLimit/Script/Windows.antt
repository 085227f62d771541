-- ===== src/RateLimit/Script/Windows.antt =====
-- The windows over a history of requests: no counter passes its capacity, every counter expires,
-- and a refused client that waits as long as it is told is admitted.
use Prim.Native.Nat.{max}
use route_llm.Prelude.{
  Bool, true, false, ◌||◌, ℕ, ◌+◌, ◌≤◌, ◌<◌, ◌≡◌, ◌≢◌, sym, subst, ◌∙◌, ap, Option, none, some, ltb,
  leb, arith, ◌⊎◌, inl, inr, Bool-cases,
}
use route_llm.Prelude.Text.{Text, text_eq, text_eq_iff}
use route_llm.RateLimit.Redis.{Redis, IsRedis, Entry, value_of, age}
use route_llm.RateLimit.Script.{Arguments, Reply, admitted, blocked, admit_script}
use route_llm.RateLimit.Script.Decision.{Fits, wait, held, charged, admit_script_decides}

abbrev TtlWithin : ℕ → Option ℕ → Type 0
TtlWithin window none = ⊥
TtlWithin window (some left) = left ≤ window

-- A live counter is within its capacity and expires within its window.
abbrev pub IsWithin : ℕ → ℕ → Option Entry → Type 0
IsWithin capacity window none = Unit
IsWithin capacity window (some e) = (e.value ≤ capacity) × TtlWithin window e.ttl

charged-IsWithin :
    (w cap window : ℕ) (o : Option Entry)
    → 0 < window
    → Fits w cap o
    → IsWithin cap window o
    → IsWithin cap window (some (charged w window o))
charged-IsWithin w cap window none p f h = (f, omega arith)
charged-IsWithin w cap window (some e) p f h = ground arith

age-IsWithin :
    (d cap window : ℕ) (o : Option Entry) → IsWithin cap window o → IsWithin cap window (age d o)
age-IsWithin d cap window none h = tt
age-IsWithin d cap window (some e) h = ground arith

Fits-age :
    (w d cap window : ℕ) (o : Option Entry)
    → w ≤ cap
    → IsWithin cap window o
    → held (ltb cap (value_of o + w)) (wait window o) < d
    → Fits w cap (age d o)
Fits-age w d cap window none p h q = omega arith
Fits-age w d cap window (some e) p h q = ground arith

wait-positive : (window : ℕ) (o : Option Entry) → 0 < window → 0 < wait window o
wait-positive window none p = p
wait-positive window (some e) p = ground arith

max-held : (c g : Bool) (x y : ℕ) → 0 < x → 0 < y → (c || g) ≡ true → 0 < max (held c x) (held g y)
max-held true g x y p q h = omega arith
max-held false true x y p q h = omega arith
max-held false false x y p q h = cc

Fits-none :
    (x w c y g : ℕ) → ¬ ((x + w ≤ c) × (y + w ≤ g)) → (ltb c (x + w) || ltb g (y + w)) ≡ true
Fits-none x w c y g n = ground arith

Fits-both : (x w c y g : ℕ) → ((x + w ≤ c) × (y + w ≤ g)) ⊎ ¬ ((x + w ≤ c) × (y + w ≤ g))
Fits-both x w c y g = elim (Bool-cases (leb (x + w) c)) [
  | inl p ↦ elim (Bool-cases (leb (y + w) g)) [
    | inl q ↦ inl (ground arith, ground arith)
    | inr q ↦ inr (λ h. ground arith)
  ]
  | inr p ↦ inr (λ h. ground arith)
]

blocked-injective : {a b c d : ℕ} → blocked a b ≡ blocked c d → (a ≡ c) × (b ≡ d)
blocked-injective h = (cc, cc)

-- What all requests share.
pub record Limits : Type 0 where
  pub global_key : Text
  pub client_capacity : ℕ
  pub client_window_ms : ℕ
  pub global_capacity : ℕ
  pub global_window_ms : ℕ

abbrev pub request : Limits → Text → ℕ → Arguments
request l key weight = record {
  client_key = key;
  global_key = l.global_key;
  weight = weight;
  client_capacity = l.client_capacity;
  client_window_ms = l.client_window_ms;
  global_capacity = l.global_capacity;
  global_window_ms = l.global_window_ms;
}

module _ (r : Redis) (laws : IsRedis r) (l : Limits) where
  open r use {Store, entry}

  pub record IsBounded (now : ℕ) (s : Store) : Type 0 where
    pub global : IsWithin l.global_capacity l.global_window_ms (entry now l.global_key s)
    pub clients :
        (key : Text)
        → key ≢ l.global_key
        → IsWithin l.client_capacity l.client_window_ms (entry now key s)

  -- Time passes, or a client asks for admission.
  pub data Step : ℕ → Store → ℕ → Store → Type 0 where
    passes : {now later : ℕ} {s : Store} (d : ℕ) → later ≡ now + d → Step now s later s
    asks :
        {now : ℕ} {s s' : Store} (key : Text) (weight : ℕ)
        → key ≢ l.global_key
        → s' ≡ (admit_script r now (request l key weight) s).0
        → Step now s now s'

  pub data History (start : ℕ) (s : Store) : ℕ → Store → Type 0 where
    begin : History start s start s
    next :
        {now later : ℕ} {t u : Store}
        → History start s now t
        → Step now t later u
        → History start s later u

  passes-IsBounded : (now d : ℕ) (s : Store) → IsBounded now s → IsBounded (now + d) s
  passes-IsBounded now d s b = record {
    global = rw laws.aging (age-IsWithin d _ _ _ b.global);
    clients = λ key ne. rw laws.aging (age-IsWithin d _ _ _ (b.clients key ne));
  }

  module _ (client_pos : 0 < l.client_window_ms) (global_pos : 0 < l.global_window_ms) where
    asks-IsBounded :
        (now : ℕ) (s : Store) (key : Text) (w : ℕ)
        → key ≢ l.global_key
        → IsBounded now s
        → IsBounded now (admit_script r now (request l key w) s).0
    asks-IsBounded now s key w ne b =
        elim (Fits-both (value_of (entry now key s)) w l.client_capacity
          (value_of (entry now l.global_key s)) l.global_capacity) [
            | inl (p, q) ↦
                let done =
                  (admit_script_decides r laws now (request l key w) s ne client_pos global_pos).0 p
                    q in
                record {
                  global =
                      subst (IsWithin l.global_capacity l.global_window_ms) (sym done.global_after)
                        (charged-IsWithin w _ _ _ global_pos q b.global);
                  clients = λ j nj. elim (Bool-cases (text_eq key j)) [
                    | inl e ↦
                        subst
                          (λ k.
                            IsWithin l.client_capacity l.client_window_ms
                              (entry now k (admit_script r now (request l key w) s).0))
                          ((text_eq_iff key j).0 e)
                          (subst (IsWithin l.client_capacity l.client_window_ms)
                            (sym done.client_after)
                            (charged-IsWithin w _ _ _ client_pos p (b.clients key ne)))
                    | inr e ↦
                        subst (IsWithin l.client_capacity l.client_window_ms)
                          (sym
                            (done.others j (λ k. cc ((text_eq_iff key j).1 k)) (λ k. nj (sym k))))
                          (b.clients j nj)
                  ];
                }
            | inr n ↦
                subst (IsBounded now)
                  (sym (
                    ap (λ (x : Store × Reply). x.0)
                      ((admit_script_decides r laws now (request l key w) s ne client_pos
                          global_pos).1
                        n)))
                  b
          ]

    -- With windows that are not empty and from a bounded start: whatever requests of whatever weight
    -- arrive, and however time passes between them, every counter stays within its capacity and has
    -- a time to live within its window.
    pub History-IsBounded :
        {start : ℕ} {s : Store} {now : ℕ} {t : Store}
        → IsBounded start s
        → History start s now t
        → IsBounded now t
    History-IsBounded b begin = b
    History-IsBounded b (next h (passes {now = now} {s = t} d e)) =
        subst (λ n. IsBounded n t) (sym e) (passes-IsBounded now d t (History-IsBounded b h))
    History-IsBounded b (next h (asks {now = now} {s = t} key w ne e)) =
        subst (IsBounded now) (sym e) (asks-IsBounded now t key w ne (History-IsBounded b h))

    -- In bounded counters with windows that are not empty, a request that is refused, of a weight that
    -- the capacities allow and by a key that is not the global one, is told to wait at least one
    -- millisecond, and is admitted when it is repeated after that time has passed, if no other request
    -- came between.
    pub refused_retries :
        (now : ℕ) (s : Store) (key : Text) (w retry scope d : ℕ)
        → IsBounded now s
        → key ≢ l.global_key
        → w ≤ l.client_capacity
        → w ≤ l.global_capacity
        → (admit_script r now (request l key w) s).1 ≡ blocked retry scope
        → retry < d
        → (0 < retry)
          × (left_client : ℕ) × (left_global : ℕ) × ((admit_script r
                (now + d)
                (request l key w)
                s).1
              ≡ admitted left_client left_global)
    refused_retries now s key w retry scope d b ne wc wg refused later =
        elim (Fits-both (value_of (entry now key s)) w l.client_capacity
          (value_of (entry now l.global_key s)) l.global_capacity) [
            | inl (p, q) ↦ cc (
              refused,
              ((admit_script_decides r laws now (request l key w) s ne client_pos global_pos).0 p
                  q).reply,
            )
            | inr n ↦
                let (told, rest) = blocked-injective (
                  sym refused
                  ∙ ap (λ (x : Store × Reply). x.1)
                      ((admit_script_decides r laws now (request l key w) s ne client_pos
                          global_pos).1
                        n)) in
                let positive =
                  max-held (ltb l.client_capacity (value_of (entry now key s) + w))
                    (ltb l.global_capacity (value_of (entry now l.global_key s) + w))
                    (wait l.client_window_ms (entry now key s))
                    (wait l.global_window_ms (entry now l.global_key s))
                    (wait-positive l.client_window_ms (entry now key s) client_pos)
                    (wait-positive l.global_window_ms (entry now l.global_key s) global_pos)
                    (Fits-none (value_of (entry now key s)) w l.client_capacity
                      (value_of (entry now l.global_key s)) l.global_capacity n) in
                let fits_client : Fits w l.client_capacity (entry (now + d) key s) =
                  rw laws.aging
                    (Fits-age w d _ l.client_window_ms _ wc (b.clients key ne) (omega arith)) in
                let fits_global : Fits w l.global_capacity (entry (now + d) l.global_key s) =
                  rw laws.aging (Fits-age w d _ l.global_window_ms _ wg b.global (omega arith)) in
                let done =
                  (admit_script_decides r laws (now + d) (request l key w) s ne client_pos
                      global_pos).0
                    fits_client fits_global in
                (omega (arith, told, positive), _, _, done.reply)
          ]
