-- ===== src/Redis/Commands.antt =====
-- The commands of src/shared/redis/redis.service.ts, over keys and values as texts. The client of the
-- server, `JSON` and `parseFloat` are parameters; a command that the server refuses is not modelled,
-- but for KEYS, whose error the service catches.
use nestjs_template.Common.{
  ℕ, String, Bool, Option, none, some, List, [], ◌∷◌, map, ◌==◌, truthy_number, if◌then◌else◌,
}

-- `Number` holds the numbers that the server answers, which may be negative.
pub record RedisClient : Type 1 where
  pub Store : Type 0
  pub Number : Type 0
  pub get : String → Store → Option String
  pub getdel : String → Store → Option String × Store
  pub set : String → String → Store → Store
  pub set_ex : String → String → ℕ → Store → Store
  pub set_ex_nx : String → String → ℕ → Store → Bool × Store
  pub setnx : String → String → Store → ℕ × Store
  pub del : List String → Store → Store
  pub mget : List String → Store → List (Option String)
  pub mset : List String → Store → Store
  pub incr : String → Store → Number × Store
  pub incrby : String → Number → Store → Number × Store
  pub decr : String → Store → Number × Store
  pub decrby : String → Number → Store → Number × Store
  pub expire : String → ℕ → Store → Store
  pub exists : String → Store → ℕ
  pub ttl : String → Store → Number
  pub hset : String → List (String × String) → Store → Store
  pub hget : String → String → Store → Option String
  pub hgetall : String → Store → List (String × String)
  pub hdel : String → List String → Store → Store
  pub hexists : String → String → Store → ℕ
  pub sadd : String → List String → Store → Store
  pub smembers : String → Store → List String
  pub srem : String → List String → Store → Store
  pub scard : String → Store → ℕ
  pub sismember : String → String → Store → ℕ
  pub zadd : String → Number → String → Store → Store
  pub zscore : String → String → Store → Option String
  pub zrangebyscore : String → Option Number → Option Number → Store → List String
  pub zrem : String → List String → Store → Store
  pub zremrangebyscore : String → Option Number → Option Number → Store → Store
  pub zcard : String → Store → ℕ
  pub keys : String → Store → Option (List String)

-- `JSON.stringify` and `JSON.parse`; `none` is a text that is no JSON.
pub record Codec (J : Type 0) : Type 0 where
  pub stringify : J → String
  pub parse : String → Option J

-- `null` where the key is missing or the text is no JSON
abbrev pub parsed : {J : Type 0} → Codec J → Option String → Option J
parsed json none = none
parsed json (some text) = json.parse text

abbrev unless_empty : {A S : Type 0} → List A → (List A → S → S) → S → S
unless_empty [] command d = d
unless_empty (x ∷ xs) command d = command (x ∷ xs) d

module _ (c : RedisClient) where
  -- Commands on values.
  module _ {J : Type 0} (json : Codec J) where
    -- a `ttl` of 0 or `undefined` sets no expiry
    unfoldable pub set : String → J → ℕ → c.Store → c.Store
    set key value ttl d =
        if truthy_number ttl
        then c.set_ex key (json.stringify value) ttl d
        else c.set key (json.stringify value) d

    unfoldable pub get : String → c.Store → Option J
    get key d = parsed json (c.get key d)

    unfoldable pub getdel : String → c.Store → Option J × c.Store
    getdel key d = let (found, after) = c.getdel key d in (parsed json found, after)

    unfoldable pub setnx : String → J → ℕ → c.Store → Bool × c.Store
    setnx key value ttl d =
        if truthy_number ttl
        then c.set_ex_nx key (json.stringify value) ttl d
        else (let (answer, after) = c.setnx key (json.stringify value) d in (answer == 1, after))

    unfoldable pub mget : List String → c.Store → List (Option J)
    mget [] d = []
    mget (key ∷ keys) d = map (parsed json) (c.mget (key ∷ keys) d)

    -- the pipeline of `mset` with a `ttl`
    abbrev set_each : List (String × J) → ℕ → c.Store → c.Store
    set_each [] ttl d = d
    set_each ((key, value) ∷ pairs) ttl d =
        set_each pairs ttl (c.set_ex key (json.stringify value) ttl d)

    abbrev flat : List (String × J) → List String
    flat [] = []
    flat ((key, value) ∷ pairs) = key ∷ json.stringify value ∷ flat pairs

    unfoldable pub mset : List (String × J) → ℕ → c.Store → c.Store
    mset [] ttl d = d
    mset (pair ∷ pairs) ttl d =
        if truthy_number ttl then set_each (pair ∷ pairs) ttl d else c.mset (flat (pair ∷ pairs)) d

    unfoldable pub hset : String → String → J → c.Store → c.Store
    hset key name value d = c.hset key ((name, json.stringify value) ∷ []) d

    unfoldable pub hget : String → String → c.Store → Option J
    hget key name d = parsed json (c.hget key name d)

  unfoldable pub del : List String → c.Store → c.Store
  del keys d = unless_empty keys c.del d

  -- Commands that pass their arguments on.
  abbrev pub incr : String → c.Store → c.Number × c.Store
  incr key d = c.incr key d

  abbrev pub incr_by : String → c.Number → c.Store → c.Number × c.Store
  incr_by key by d = c.incrby key by d

  abbrev pub decr : String → c.Store → c.Number × c.Store
  decr key d = c.decr key d

  abbrev pub decr_by : String → c.Number → c.Store → c.Number × c.Store
  decr_by key by d = c.decrby key by d

  abbrev pub expire : String → ℕ → c.Store → c.Store
  expire key seconds d = c.expire key seconds d

  abbrev pub exists : String → c.Store → Bool
  exists key d = c.exists key d == 1

  abbrev pub ttl : String → c.Store → c.Number
  ttl key d = c.ttl key d

  -- Hashes.
  abbrev pub hmset : String → List (String × String) → c.Store → c.Store
  hmset key values d = c.hset key values d

  abbrev null_if_empty : List (String × String) → Option (List (String × String))
  null_if_empty [] = none
  null_if_empty (f ∷ fs) = some (f ∷ fs)

  abbrev pub hgetall : String → c.Store → Option (List (String × String))
  hgetall key d = null_if_empty (c.hgetall key d)

  abbrev pub hdel : String → List String → c.Store → c.Store
  hdel key names d = unless_empty names (c.hdel key) d

  abbrev pub hexists : String → String → c.Store → Bool
  hexists key name d = c.hexists key name d == 1

  -- Sets.
  abbrev pub sadd : String → List String → c.Store → c.Store
  sadd key members d = unless_empty members (c.sadd key) d

  abbrev pub smembers : String → c.Store → List String
  smembers key d = c.smembers key d

  abbrev pub srem : String → List String → c.Store → c.Store
  srem key members d = unless_empty members (c.srem key) d

  abbrev pub scard : String → c.Store → ℕ
  scard key d = c.scard key d

  abbrev pub sismember : String → String → c.Store → Bool
  sismember key item d = c.sismember key item d == 1

  -- Sorted sets; `none` is an infinite bound.
  abbrev pub zadd : String → c.Number → String → c.Store → c.Store
  zadd key score item d = c.zadd key score item d

  abbrev pub zscore : (String → c.Number) → String → String → c.Store → Option c.Number
  zscore parse_float key item d = elim (c.zscore key item d) [
    | none ↦ none
    | some text ↦ some (parse_float text)
  ]

  abbrev pub zrangebyscore : String → Option c.Number → Option c.Number → c.Store → List String
  zrangebyscore key low high d = c.zrangebyscore key low high d

  abbrev pub zrem : String → List String → c.Store → c.Store
  zrem key members d = unless_empty members (c.zrem key) d

  abbrev pub zremrangebyscore : String → Option c.Number → Option c.Number → c.Store → c.Store
  zremrangebyscore key low high d = c.zremrangebyscore key low high d

  abbrev pub zcard : String → c.Store → ℕ
  zcard key d = c.zcard key d

  -- An error is logged and answered as no key.
  abbrev pub keys : String → c.Store → List String
  keys pattern_ d = elim (c.keys pattern_ d) [ none ↦ [] | some found ↦ found ]
