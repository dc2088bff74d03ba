-- ===== src/Redis/Memory.antt =====
-- A server for tests and examples: the log of what was written, read from the latest entry. It
-- shows that the documented laws can hold together.
use mathlib.Core.Bool.{and-eq-true_iff}
use nestjs_template.Common.{
  ℕ, suc, ◌+◌, ◌-◌, ◌/◌, ◌≤◌, ◌≡◌, refl, true, false, ◌&&◌, ◌||◌, Option, none, some, List, [], ◌∷◌,
  arith, ltb, is_some, ◌===◌, if◌then◌else◌, select, Has, Has-select, select-true, here, there,
  after_seconds, Bool-cases, inl, inr,
}
use nestjs_template.Redis.{RedisServer, RedisLaws}
use nestjs_template.Redis.Keys.{
  RedisKey, same_key, same_key_refl, same_key_iff, Pattern, matches, Value, SessionHash, counter_of,
}

-- A value with its deadline, if it has one; `none` for a key that was deleted.
abbrev pub Entry : Type 0
Entry = Option (Value × Option ℕ)

abbrev pub Log : Type 0
Log = List (RedisKey × Entry)

abbrev at_time : ℕ → Entry → Entry
at_time t none = none
at_time t (some (v, none)) = some (v, none)
at_time t (some (v, some deadline)) = if ltb t deadline then some (v, some deadline) else none

abbrev entry : ℕ → RedisKey → Log → Entry
entry t k [] = none
entry t k ((j, e) ∷ log) = if same_key j k then at_time t e else entry t k log

abbrev value : Entry → Option Value
value none = none
value (some (v, _)) = some v

abbrev with_value : Value → Entry → Entry
with_value v none = some (v, none)
with_value v (some (_, deadline)) = some (v, deadline)

abbrev with_deadline : ℕ → Entry → Entry
with_deadline deadline none = none
with_deadline deadline (some (v, _)) = some (v, some deadline)

abbrev remaining : ℕ → Entry → ℕ
remaining t (some (_, some deadline)) = (deadline - t + 999) / 1000
remaining t _ = 0

abbrev keys_of : Log → List RedisKey
keys_of [] = []
keys_of ((k, _) ∷ log) = k ∷ keys_of log

-- The pattern language is not needed for the examples: a session id matches itself, `*` matches any.
abbrev pub memory : RedisServer
memory = record {
  Store = Log;
  glob = λ p s. (p === s) || (p === "*");
  get = λ t k d. value (entry t k d);
  put = λ n k v d. (k, some (v, none)) ∷ d;
  put_ex = λ n k v s d. (k, some (v, some (after_seconds n s))) ∷ d;
  remove = λ k d. (k, none) ∷ d;
  scan = λ n p d.
      select (λ k. matches (λ p s. (p === s) || (p === "*")) p k && is_some (value (entry n k d)))
        (keys_of d);
  hset = λ n k h d. (k, with_value (Value.session h) (entry n k d)) ∷ d;
  expire = λ n k s d. (k, with_deadline (after_seconds n s) (entry n k d)) ∷ d;
  incr = λ n k d.
      (k, with_value (Value.counter (suc (counter_of (value (entry n k d))))) (entry n k d)) ∷ d;
  ttl = λ n k d. remaining n (entry n k d);
}

same_key-false :
    (k j : RedisKey)
    → same_key k j ≡ false
    → (x : Entry) (d : Log) (t : ℕ) → entry t j ((k, x) ∷ d) ≡ entry t j d
same_key-false k j h x d t = rw h

keys_of_complete :
    (n : ℕ) (k : RedisKey) (v : Value) (d : Log) → value (entry n k d) ≡ some v → Has k (keys_of d)
keys_of_complete n k v [] h = cc
keys_of_complete n k v ((j, e) ∷ d) h = elim (Bool-cases (same_key j k)) [
  | inl same ↦ rw ((same_key_iff j k).0 same) here
  | inr other ↦ there (keys_of_complete n k v d (rw other at h))
]

memory-get-put_ex :
    (t n : ℕ) (j k : RedisKey) (v : Value) (s : ℕ) (d : Log)
    → memory.get t j (memory.put_ex n k v s d) ≡ (
        if same_key k j
        then (if ltb t (after_seconds n s) then some v else none)
        else memory.get t j d)
memory-get-put_ex t n j k v s d = elim (Bool-cases (same_key k j)) [
  | inl e ↦ rw e (ground arith)
  | inr e ↦ rw e
]

entry_persist :
    (t n : ℕ) (k : RedisKey) (v : Value) (m : Option ℕ) (d : Log)
    → n ≤ t
    → entry t k d ≡ some (v, m)
    → entry n k d ≡ some (v, m)
entry_persist t n k v m [] le h = h
entry_persist t n k v m ((j, none) ∷ d) le h = ground (arith, entry_persist t n k v m d le)
entry_persist t n k v m ((j, some (w, none)) ∷ d) le h =
    ground (arith, entry_persist t n k v m d le)
entry_persist t n k v m ((j, some (w, some deadline)) ∷ d) le h =
    ground (arith, entry_persist t n k v m d le)

entry_alive :
    (t : ℕ) (k : RedisKey) (v : Value) (m : Option ℕ) (d : Log)
    → entry t k d ≡ some (v, m)
    → at_time t (some (v, m)) ≡ some (v, m)
entry_alive t k v m [] e = cc
entry_alive t k v m ((j, none) ∷ d) e = ground (arith, entry_alive t k v m d)
entry_alive t k v none ((j, some (w, l)) ∷ d) e = refl
entry_alive t k v (some x) ((j, some (w, none)) ∷ d) e =
    ground (arith, entry_alive t k v (some x) d)
entry_alive t k v (some x) ((j, some (w, some y)) ∷ d) e =
    ground (arith, entry_alive t k v (some x) d)

alive_deadline :
    (t : ℕ) (v w : Value) (m : Option ℕ)
    → at_time t (some (v, m)) ≡ some (v, m)
    → value (at_time t (some (w, m))) ≡ some w
alive_deadline t v w none e = refl
alive_deadline t v w (some x) e = ground arith

-- A counter keeps its deadline when it is incremented.
memory-get-incr :
    (t n : ℕ) (k : RedisKey) (c : ℕ) (d : Log)
    → n ≤ t
    → memory.get t k d ≡ some (Value.counter c)
    → memory.get t k (memory.incr n k d) ≡ some (Value.counter (suc c))
memory-get-incr t n k c d le h = go (entry t k d) refl
  where
    go :
        (e : Entry)
        → entry t k d ≡ e
        → memory.get t k (memory.incr n k d) ≡ some (Value.counter (suc c))
    go none q = cc
    go (some (v, m)) q =
        let now : value (entry n k d) ≡ some (Value.counter c) =
          rw (entry_persist t n k v m d le q) (cc) in
        rw (same_key_refl k) (
          rw now (
            rw (entry_persist t n k v m d le q)
              (alive_deadline t v (Value.counter (suc c)) m (entry_alive t k v m d q))))

memory-get_persist :
    (t n : ℕ) (k : RedisKey) (v : Value) (d : Log)
    → n ≤ t
    → memory.get t k d ≡ some v
    → memory.get n k d ≡ some v
memory-get_persist t n k v d le h = go (entry t k d) refl
  where
    go : (e : Entry) → entry t k d ≡ e → memory.get n k d ≡ some v
    go none q = cc
    go (some (w, m)) q = rw (entry_persist t n k w m d le q) (cc)

memory-get-hset_self :
    (n : ℕ) (k : RedisKey) (h : SessionHash) (d : Log)
    → memory.get n k (memory.hset n k h d) ≡ some (Value.session h)
memory-get-hset_self n k h d = go (entry n k d) refl
  where
    go :
        (e : Entry)
        → entry n k d ≡ e
        → memory.get n k (memory.hset n k h d) ≡ some (Value.session h)
    go none q = rw (same_key_refl k) (rw q refl)
    go (some (w, m)) q =
        rw (same_key_refl k)
          (rw q (alive_deadline n w (Value.session h) m (entry_alive n k w m d q)))

memory-get-expire :
    (t n : ℕ) (j k : RedisKey) (s : ℕ) (d : Log)
    → memory.get t j (memory.expire n k s d) ≡ (
        if same_key k j
        then (if ltb t (after_seconds n s) then memory.get n k d else none)
        else memory.get t j d)
memory-get-expire t n j k s d = elim (Bool-cases (same_key k j)) [
  | inl e ↦ rw e (ground arith)
  | inr e ↦ rw e
]

memory-scan_complete :
    (n : ℕ) (p : Pattern) (k : RedisKey) (v : Value) (d : Log)
    → matches memory.glob p k ≡ true
    → memory.get n k d ≡ some v
    → Has k (memory.scan n p d)
memory-scan_complete n p k v d h e = Has-select _ (rw h (rw e refl)) (keys_of_complete n k v d e)

memory-scan_sound :
    (n : ℕ) (p : Pattern) (k : RedisKey) (d : Log)
    → Has k (memory.scan n p d)
    → matches memory.glob p k ≡ true
memory-scan_sound n p k d m = ((and-eq-true_iff _ _).0 (select-true _ (keys_of d) m)).0

memory-get-incr_new :
    (t n : ℕ) (k : RedisKey) (d : Log)
    → memory.get n k d ≡ none
    → memory.get t k (memory.incr n k d) ≡ some (Value.counter 1)
memory-get-incr_new t n k d h = go (entry n k d) refl
  where
    go : (e : Entry) → entry n k d ≡ e → memory.get t k (memory.incr n k d) ≡ some (Value.counter 1)
    go none q = rw (same_key_refl k) (rw q refl)
    go (some (v, m)) q = cc

-- A counter vanishes when it did before.
entry_expired :
    (t n : ℕ) (k : RedisKey) (v : Value) (m : Option ℕ) (w : Value) (d : Log)
    → entry n k d ≡ some (v, m)
    → value (entry t k d) ≡ none
    → value (at_time t (some (w, m))) ≡ none
entry_expired t n k v m w [] e h = cc
entry_expired t n k v m w ((j, none) ∷ d) e h = ground (arith, entry_expired t n k v m w d)
entry_expired t n k v m w ((j, some (u, none)) ∷ d) e h =
    ground (arith, entry_expired t n k v m w d)
entry_expired t n k v none w ((j, some (u, some x)) ∷ d) e h =
    ground (arith, entry_expired t n k v none w d)
entry_expired t n k v (some y) w ((j, some (u, some x)) ∷ d) e h =
    ground (arith, entry_expired t n k v (some y) w d)

memory-get-incr_expired :
    (t n : ℕ) (k : RedisKey) (c : ℕ) (d : Log)
    → memory.get n k d ≡ some (Value.counter c)
    → memory.get t k d ≡ none
    → memory.get t k (memory.incr n k d) ≡ none
memory-get-incr_expired t n k c d h z = go (entry n k d) refl
  where
    go : (e : Entry) → entry n k d ≡ e → memory.get t k (memory.incr n k d) ≡ none
    go none q = cc
    go (some (v, m)) q =
        rw (same_key_refl k)
          (rw q (entry_expired t n k v m (Value.counter (suc (counter_of (some v)))) d q z))

memory-get-write :
    (t : ℕ) (j k : RedisKey) (v : Option Value) (e : Entry) (d : Log)
    → value (at_time t e) ≡ v
    → memory.get t j ((k, e) ∷ d) ≡ (if same_key k j then v else memory.get t j d)
memory-get-write t j k v e d h = elim (Bool-cases (same_key k j)) [ inl q ↦ rw q h | inr q ↦ rw q ]

-- The log behaves as the documentation says.
pub memory_laws : RedisLaws memory
memory_laws = record {
  get-put = λ t n j k v d le. memory-get-write t j k (some v) (some (v, none)) d refl;
  get-put_ex = λ t n j k v s d le. memory-get-put_ex t n j k v s d;
  get-remove = λ t j k d. memory-get-write t j k none none d refl;
  get-hset_self = memory-get-hset_self;
  get-hset_ne = λ t n j k h d e. rw e;
  get-expire = λ t n j k s d le. memory-get-expire t n j k s d;
  get-incr_new = λ t n k d le. memory-get-incr_new t n k d;
  get-incr = memory-get-incr;
  get-incr_expired = λ t n k c d le. memory-get-incr_expired t n k c d;
  get_persist = memory-get_persist;
  scan_complete = memory-scan_complete;
  scan_sound = memory-scan_sound;
}
