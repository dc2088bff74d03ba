-- ===== src/RateLimit/Window.antt =====
-- The attempts that fit in one window.
use nestjs_template.Common.{
  ℕ, suc, ◌+◌, ◌*◌, ◌≤◌, ◌<◌, ◌≡◌, none, some, List, [], ◌∷◌, length, String, ltb, if◌then◌else◌,
  arith, Result, ok, err, http, rate_limited, lt→ltb, le→ltb, after_seconds,
}
use nestjs_template.Redis.{RedisServer, RedisLaws, rate_limit, Value, same_key_refl, RedisKey}
use nestjs_template.State.{World, wait_until}
use nestjs_template.RateLimit.{check_limit, increment, window_seconds}

abbrev pub total : List ℕ → ℕ
total [] = 0
total (d ∷ ds) = d + total ds

-- The answer to the attempt with this number.
abbrev pub answer : ℕ → ℕ → Result (Unit {0})
answer max_attempts count = if ltb max_attempts count then err (http 429 rate_limited) else ok tt

module _ {r : RedisServer} (key : RedisKey) (secs : ℕ) (w : World r) where
  increment_new :
      r.get w.now key (r.incr w.now key w.redis) ≡ some (Value.counter 1)
      → increment key secs w ≡ (
        ok (record { count = 1; retry_after = secs }),
        record w { redis = r.expire w.now key secs (r.incr w.now key w.redis) },
      )
  unfolding increment
  increment_new h = rw h

  increment_later :
      (c : ℕ)
      → r.get w.now key (r.incr w.now key w.redis) ≡ some (Value.counter (suc (suc c)))
      → (wait : ℕ) × (increment key secs w ≡ (
        ok (record { count = suc (suc c); retry_after = wait }),
        record w { redis = r.incr w.now key w.redis },
      ))
  unfolding increment
  increment_later c h = (
    let left = r.ttl w.now key (r.incr w.now key w.redis) in (if ltb 0 left then left else secs),
    rw h (ground arith),
  )

module _ {r : RedisServer} (identifier action : String) (max_attempts window_ms : ℕ) where
  -- An attempt at another time, and several, each after a wait.
  abbrev pub try_at : ℕ → World r → Result (Unit {0}) × World r
  try_at t w = check_limit identifier action max_attempts window_ms (wait_until t w)

  abbrev pub tries : List ℕ → World r → World r
  tries [] w = w
  tries (d ∷ ds) w = tries ds (try_at (w.now + d) w).1

  -- The window is open until the deadline and has seen `c` attempts.
  record IsOpen (deadline c : ℕ) (w : World r) : Type 0 where
    pub counted :
        (t : ℕ)
        → w.now ≤ t
        → t < deadline
        → r.get t (rate_limit action identifier) w.redis ≡ some (Value.counter c)
    pub ends :
        (t : ℕ) → w.now ≤ t → deadline ≤ t → r.get t (rate_limit action identifier) w.redis ≡ none

  module _ (laws : RedisLaws r) where
    check_limit_new :
        (w : World r)
        → r.get w.now
            (rate_limit action identifier)
            (r.incr w.now (rate_limit action identifier) w.redis)
          ≡ some (Value.counter 1)
        → check_limit identifier action max_attempts window_ms w ≡ (
          answer max_attempts 1,
          record w {
            redis =
                r.expire w.now
                  (rate_limit action identifier)
                  (window_seconds window_ms)
                  (r.incr w.now (rate_limit action identifier) w.redis);
          },
        )
    unfolding check_limit
    check_limit_new w h =
        ground (arith, increment_new (rate_limit action identifier) (window_seconds window_ms) w h)

    check_limit_later :
        (w : World r) (c : ℕ)
        → r.get w.now
            (rate_limit action identifier)
            (r.incr w.now (rate_limit action identifier) w.redis)
          ≡ some (Value.counter (suc (suc c)))
        → check_limit identifier action max_attempts window_ms w ≡ (
          answer max_attempts (suc (suc c)),
          record w { redis = r.incr w.now (rate_limit action identifier) w.redis },
        )
    unfolding check_limit
    check_limit_later w c h =
        let (wait, e) =
          increment_later (rate_limit action identifier) (window_seconds window_ms) w c h in
        ground (arith, e)

    -- The first attempt opens a window.
    first_IsOpen :
        (w : World r)
        → r.get w.now (rate_limit action identifier) w.redis ≡ none
        → IsOpen
            (w.now + window_seconds window_ms * 1000)
            1
            (check_limit identifier action max_attempts window_ms w).1
    first_IsOpen w h =
        let k = rate_limit action identifier in
        let secs = window_seconds window_ms in
        let d = r.incr w.now k w.redis in
        let new = laws.get-incr_new w.now w.now k w.redis (omega arith) h in
        rw (check_limit_new w new) (record {
          counted = λ t le lt.
              rw (laws.get-expire t w.now k k secs d le)
                (rw (same_key_refl k) (rw (lt→ltb t (after_seconds w.now secs) lt) new));
          ends = λ t le late.
              rw (laws.get-expire t w.now k k secs d le)
                (rw (same_key_refl k) (rw (le→ltb t (after_seconds w.now secs) late)));
        })

    -- A later one in the window is counted.
    later :
        (w : World r) (c deadline d : ℕ)
        → IsOpen deadline (suc c) w
        → w.now + d < deadline
        → ((try_at (w.now + d) w).0 ≡ answer max_attempts (suc (suc c)))
          × IsOpen deadline (suc (suc c)) (try_at (w.now + d) w).1
          × ((try_at (w.now + d) w).1.now ≡ w.now + d)
    later w c deadline d o early =
        let k = rate_limit action identifier in
        let n = w.now + d in
        let now = o.counted n (omega arith) early in
        let e =
          check_limit_later (wait_until n w) c
            (laws.get-incr n n k (suc c) w.redis (omega arith) now) in
        (
          rw e,
          rw e (record {
            counted =
                λ t le lt. laws.get-incr t n k (suc c) w.redis le (o.counted t (omega arith) lt);
            ends = λ t le late.
                laws.get-incr_expired t n k (suc c) w.redis le now (o.ends t (omega arith) late);
          }),
          rw e,
        )

    tries-IsOpen :
        (ds : List ℕ) (w : World r) (c n deadline : ℕ)
        → IsOpen deadline (suc c) w
        → w.now + total ds < deadline
        → n ≡ suc c + length ds
        → IsOpen deadline n (tries ds w) × ((tries ds w).now ≡ w.now + total ds)
    tries-IsOpen [] w c n deadline o early e =
        let same : n ≡ suc c = omega arith in (rw same o, omega arith)
    tries-IsOpen (d ∷ ds) w c n deadline o early e =
        let (_, o', moved) = later w c deadline d o (omega arith) in
        let (p, q) =
          tries-IsOpen ds (try_at (w.now + d) w).1 (suc c) n deadline o' (omega arith)
            (omega arith) in
        (p, omega arith)

    -- Where no window is open, the first attempt opens one. After further attempts in it, at whatever
    -- times, the next is answered by its number: it is refused exactly when the number is over the
    -- limit. From the end of the window on an attempt is the first again.
    pub window_limit :
        (w : World r) (ds : List ℕ) (d t : ℕ)
        → r.get w.now (rate_limit action identifier) w.redis ≡ none
        → total ds + d < window_seconds window_ms * 1000
        → w.now + window_seconds window_ms * 1000 ≤ t
        → let first = check_limit identifier action max_attempts window_ms w in
          let before = tries ds first.1 in
          (first.0 ≡ answer max_attempts 1)
          × ((try_at (before.now + d) before).0 ≡ answer max_attempts (suc (suc (length ds))))
          × ((try_at t before).0 ≡ answer max_attempts 1)
    window_limit w ds d t h early late =
        let k = rate_limit action identifier in
        let new = check_limit_new w (laws.get-incr_new w.now w.now k w.redis (omega arith) h) in
        let moved : (check_limit identifier action max_attempts window_ms w).1.now ≡ w.now =
          rw new in
        let deadline = w.now + window_seconds window_ms * 1000 in
        let (o, at) =
          tries-IsOpen ds (check_limit identifier action max_attempts window_ms w).1 0
            (suc (length ds)) deadline (first_IsOpen w h) (omega arith) (omega arith) in
        let before = tries ds (check_limit identifier action max_attempts window_ms w).1 in
        let (next, _, _) = later before (length ds) deadline d o (omega arith) in
        let gone = o.ends t (omega arith) late in
        (
          rw new,
          next,
          rw (
              check_limit_new (wait_until t before)
                (laws.get-incr_new t t k before.redis (omega arith) gone)),
        )
