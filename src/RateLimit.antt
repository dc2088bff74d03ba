-- ===== src/RateLimit.antt =====
-- src/shared/rate-limit: a fixed window per action and identifier.
pub mod Window
use nestjs_template.Common.{
  ℕ, ◌+◌, ◌*◌, ◌/◌, String, Option, none, some, List, [], ◌∷◌, ltb, ◌==◌, truthy_option, or_else,
  if◌then◌else◌, Action, ok, pure, throw_if, ◌>>=◌, ◌>>◌, http, rate_limited,
}
use nestjs_template.Redis.{RedisServer, RedisKey, rate_limit, counter_of}
use nestjs_template.State.{World, Request}
use nestjs_template.Client.{client_ip}

-- src/shared/rate-limit/interfaces: the count and the seconds to wait.
pub record IncrementResult : Type 0 where
  pub count : ℕ
  pub retry_after : ℕ

-- `Math.ceil(windowMs / 1000)`
abbrev pub window_seconds : ℕ → ℕ
window_seconds ms = (ms + 999) / 1000

-- A field that identifies the client: its address, or a field of the body.
pub data Identifier : Type 0 where
  ip : Identifier
  body : String → Identifier

pub record RateLimitOptions : Type 0 where
  pub action : String
  pub identifiers : List Identifier
  pub max_attempts : ℕ
  pub window_ms : Option ℕ

identifier_of : Request → (String → Option String) → Identifier → Option String
identifier_of req fields ip = some (client_ip req)
identifier_of req fields (body field) = fields field

module _ {r : RedisServer} where
  -- `IncrementRateLimitProvider.execute`: the first attempt starts the window.
  unfoldable pub increment : RedisKey → ℕ → Action (World r) IncrementResult
  increment key secs w =
      let redis = r.incr w.now key w.redis in
      let count = counter_of (r.get w.now key redis) in
      let left = r.ttl w.now key redis in
      if count == 1
      then (
        ok (record { count = count; retry_after = secs }),
        record w { redis = r.expire w.now key secs redis },
      )
      else (
        ok (record { count = count; retry_after = if ltb 0 left then left else secs }),
        record w { redis = redis },
      )

  -- `RateLimitService.checkLimit`
  unfoldable pub check_limit : String → String → ℕ → ℕ → Action (World r) (Unit {0})
  check_limit identifier action max_attempts window_ms = do
    res ← increment (rate_limit action identifier) (window_seconds window_ms)
    throw_if (ltb max_attempts res.count) (http 429 rate_limited)

  -- `RateLimitGuard.canActivate`: an identifier that is missing or empty is passed over.
  check_all :
      Request
      → (String → Option String)
      → RateLimitOptions
      → List Identifier
      → Action (World r) (Unit {0})
  check_all req fields o [] = pure tt
  check_all req fields o (i ∷ is) = do
    let id = identifier_of req fields i
    if truthy_option id
        then check_limit (or_else id "") o.action o.max_attempts
            (or_else o.window_ms (15 * 60 * 1000))
        else pure tt
    check_all req fields o is

  unfoldable pub rate_limit_guard :
      Request → (String → Option String) → Option RateLimitOptions → Action (World r) (Unit {0})
  unfolding check_all identifier_of
  rate_limit_guard req fields none = pure tt
  rate_limit_guard req fields (some o) = check_all req fields o o.identifiers
