-- ===== src/Redis.antt =====
-- The Redis server that src/shared/redis/redis.service.ts talks to, and the service's operations
-- that the modelled code calls. The server is not part of the repository: it is the record
-- `RedisServer`, its documented behaviour the record `RedisLaws`. A key template of the code is a
-- constructor of `RedisKey`, a pattern of `KEYS` one of `Pattern`: ids and fingerprints hold no
-- character that is special in a pattern, a session id may (it comes from the URL), so its match is
-- the server's `glob`.
pub mod Scan
pub mod Keys
pub mod Memory
pub mod Bulk
pub mod Commands
pub use Keys.*
use nestjs_template.Common.{
  ℕ, suc, String, ◌≤◌, ◌≡◌, Bool, true, false, Option, none, some, List, [], ◌∷◌, ltb, is_some,
  if◌then◌else◌, truthy_number, Has, after_seconds,
}

-- Commands take the time of the call. `get` is what a read sees; `ttl` is 0 where Redis answers
-- with -1 or -2.
pub record RedisServer : Type 1 where
  pub Store : Type 0
  pub glob : String → String → Bool
  pub get : ℕ → RedisKey → Store → Option Value
  pub put : ℕ → RedisKey → Value → Store → Store
  pub put_ex : ℕ → RedisKey → Value → ℕ → Store → Store
  pub remove : RedisKey → Store → Store
  pub scan : ℕ → Pattern → Store → List RedisKey
  pub hset : ℕ → RedisKey → SessionHash → Store → Store
  pub expire : ℕ → RedisKey → ℕ → Store → Store
  pub incr : ℕ → RedisKey → Store → Store
  pub ttl : ℕ → RedisKey → Store → ℕ

-- What the Redis documentation says of SET, SET EX, DEL, HSET, EXPIRE, INCR and KEYS.
pub record RedisLaws (r : RedisServer) : Type 0 where
  pub get-put :
      (t n : ℕ) (j k : RedisKey) (v : Value) (d : r.Store)
      → n ≤ t
      → r.get t j (r.put n k v d) ≡ (if same_key k j then some v else r.get t j d)
  pub get-put_ex :
      (t n : ℕ) (j k : RedisKey) (v : Value) (s : ℕ) (d : r.Store)
      → n ≤ t
      → r.get t j (r.put_ex n k v s d) ≡ (
          if same_key k j
          then (if ltb t (after_seconds n s) then some v else none)
          else r.get t j d)
  pub get-remove :
      (t : ℕ) (j k : RedisKey) (d : r.Store)
      → r.get t j (r.remove k d) ≡ (if same_key k j then none else r.get t j d)
  pub get-hset_self :
      (n : ℕ) (k : RedisKey) (h : SessionHash) (d : r.Store)
      → r.get n k (r.hset n k h d) ≡ some (Value.session h)
  pub get-hset_ne :
      (t n : ℕ) (j k : RedisKey) (h : SessionHash) (d : r.Store)
      → same_key k j ≡ false
      → r.get t j (r.hset n k h d) ≡ r.get t j d
  pub get-expire :
      (t n : ℕ) (j k : RedisKey) (s : ℕ) (d : r.Store)
      → n ≤ t
      → r.get t j (r.expire n k s d) ≡ (
          if same_key k j
          then (if ltb t (after_seconds n s) then r.get n k d else none)
          else r.get t j d)
  pub get-incr_new :
      (t n : ℕ) (k : RedisKey) (d : r.Store)
      → n ≤ t
      → r.get n k d ≡ none
      → r.get t k (r.incr n k d) ≡ some (Value.counter 1)
  pub get-incr :
      (t n : ℕ) (k : RedisKey) (c : ℕ) (d : r.Store)
      → n ≤ t
      → r.get t k d ≡ some (Value.counter c)
      → r.get t k (r.incr n k d) ≡ some (Value.counter (suc c))
  pub get-incr_expired :
      (t n : ℕ) (k : RedisKey) (c : ℕ) (d : r.Store)
      → n ≤ t
      → r.get n k d ≡ some (Value.counter c)
      → r.get t k d ≡ none
      → r.get t k (r.incr n k d) ≡ none
  -- Without commands a value only vanishes.
  pub get_persist :
      (t n : ℕ) (k : RedisKey) (v : Value) (d : r.Store)
      → n ≤ t
      → r.get t k d ≡ some v
      → r.get n k d ≡ some v
  pub scan_complete :
      (n : ℕ) (p : Pattern) (k : RedisKey) (v : Value) (d : r.Store)
      → matches r.glob p k ≡ true
      → r.get n k d ≡ some v
      → Has k (r.scan n p d)
  pub scan_sound :
      (n : ℕ) (p : Pattern) (k : RedisKey) (d : r.Store)
      → Has k (r.scan n p d)
      → matches r.glob p k ≡ true

module _ (r : RedisServer) where
  -- `RedisService.set`: a `ttl` of 0 or `undefined` sets no expiry.
  abbrev pub set : ℕ → RedisKey → Value → ℕ → r.Store → r.Store
  set n k v s d = if truthy_number s then r.put_ex n k v s d else r.put n k v d

  abbrev pub exists : ℕ → RedisKey → r.Store → Bool
  exists n k d = is_some (r.get n k d)

  -- `hgetall` answers `null` for a key that is not there.
  abbrev pub hgetall : ℕ → RedisKey → r.Store → Option SessionHash
  hgetall n k d = session_of (r.get n k d)

  -- `Promise.all(keys.map((k) => del(k)))`
  unfoldable pub del_all : List RedisKey → r.Store → r.Store
  del_all [] d = d
  del_all (k ∷ ks) d = del_all ks (r.remove k d)
