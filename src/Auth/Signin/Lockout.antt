-- ===== src/Auth/Signin/Lockout.antt =====
-- The lock of an account after wrong passwords.
use nestjs_template.Common.{
  ℕ, ◌+◌, ◌<◌, ◌≡◌, true, false, some, List, [], ◌∷◌, length, find, arith, err, http,
  account_locked, find-update_first, find-true, ==_refl, lt→ltb,
}
use nestjs_template.Redis.{RedisServer}
use nestjs_template.State.{Env, Request, World, User, wait_until}
use nestjs_template.Users.{by_id, by_email}
use nestjs_template.Auth.Signin.{
  SigninDto, check_credentials, stored_password, is_locked, count_failure, signin,
}
use nestjs_template.Auth.Signin.Credentials.{IsRefused, counted, signin-counted, signin-error}

module _ {r : RedisServer} where
  abbrev pub wait_for : ℕ → World r → World r
  wait_for d w = record w { now = w.now + d }

  -- Sign-ins with one payload, each after a wait.
  abbrev pub attempts : Env → Request → SigninDto → List ℕ → World r → World r
  attempts env req dto [] w = w
  attempts env req dto (d ∷ ds) w = attempts env req dto ds (signin env req dto (wait_for d w)).1

module _ {r : RedisServer} (env : Env) (req : Request) (dto : SigninDto) where
  IsRefused-wait_for :
      (w : World r) (user : User) (d : ℕ)
      → IsRefused env dto w user
      → IsRefused env dto (wait_for d w) user
  unfolding is_locked
  IsRefused-wait_for w user d h = record {
    known = h.known;
    own = h.own;
    present = h.present;
    active = h.active;
    unlocked = ground (arith, h.unlocked);
    differs = h.differs;
  }

  -- Below the limit the account stays open to further attempts.
  IsRefused-counted :
      (w : World r) (user : User)
      → IsRefused env dto w user
      → user.failed_attempts + 1 < 5
      → IsRefused env dto (counted env req dto w user) (count_failure w.now user user)
  unfolding is_locked count_failure stored_password
  IsRefused-counted w user h few = record {
    known =
        find-update_first (by_email dto.email) (by_id user.id) (count_failure w.now user) user
          w.users h.known h.own (find-true (by_email dto.email) user w.users h.known);
    own =
        find-update_first (by_id user.id) (by_id user.id) (count_failure w.now user) user w.users
          h.own h.own (==_refl user.id);
    present = h.present;
    active = h.active;
    unlocked = ground (arith, h.unlocked);
    differs = h.differs;
  }

  -- Below the limit `n` attempts leave an account that is refused again, with `n` more failures.
  attempts-IsRefused :
      (ds : List ℕ) (w : World r) (user : User)
      → IsRefused env dto w user
      → user.failed_attempts + length ds < 5
      → (u : User) × IsRefused env dto (attempts env req dto ds w) u
        × (u.failed_attempts ≡ user.failed_attempts + length ds)
  unfolding count_failure
  attempts-IsRefused [] w user h few = (user, h, omega arith)
  attempts-IsRefused (d ∷ ds) w user h few =
      let h' = IsRefused-wait_for w user d h in
      let w' = counted env req dto (wait_for d w) user in
      let u' = count_failure (w.now + d) user user in
      let (u, g, e) =
        attempts-IsRefused ds w' u' (IsRefused-counted (wait_for d w) user h' (omega arith))
          (omega arith) in
      rw (signin-counted env req dto (wait_for d w) user h') (u, g, omega arith)

module _ {r : RedisServer} (env : Env) (dto : SigninDto) where
  -- The account of the e-mail is locked until `deadline`.
  pub record IsLocked (deadline : ℕ) (w : World r) : Type 0 where
    pub user : User
    pub known : find (by_email dto.email) w.users ≡ some user
    pub present : user.is_deleted ≡ false
    pub active : user.is_active ≡ true
    pub until : user.locked_until ≡ some deadline

  check_credentials-locked :
      (req : Request) (w : World r) (deadline : ℕ)
      → IsLocked deadline w
      → w.now < deadline
      → check_credentials env req dto w ≡ (err (http 401 account_locked), w)
  unfolding check_credentials is_locked
  check_credentials-locked req w deadline l early =
      ground (arith, l.known, l.present, l.active, l.until, lt→ltb w.now deadline early)

  -- The fifth failure locks the account.
  signin-IsLocked :
      (req : Request) (w : World r) (user : User)
      → IsRefused env dto w user
      → user.failed_attempts ≡ 4
      → IsLocked (w.now + 1800000) (signin env req dto w).1
  unfolding count_failure
  signin-IsLocked req w user h four = rw (signin-counted env req dto w user h) (record {
    user = count_failure w.now user user;
    known =
        find-update_first (by_email dto.email) (by_id user.id) (count_failure w.now user) user
          w.users h.known h.own (find-true (by_email dto.email) user w.users h.known);
    present = h.present;
    active = h.active;
    until = ground (arith, four);
  })

  IsLocked-wait_until :
      (w : World r) (deadline t : ℕ) → IsLocked deadline w → IsLocked deadline (wait_until t w)
  IsLocked-wait_until w deadline t l = record {
    user = l.user;
    known = l.known;
    present = l.present;
    active = l.active;
    until = l.until;
  }

-- Five sign-ins with a wrong password, at whatever times, lock an account that had no failed attempt:
-- for thirty minutes from the fifth every sign-in for its e-mail is refused, the one with the right
-- password too, and changes nothing. The account is known, neither archived, inactive nor locked.
pub lockout :
    {r : RedisServer} (env : Env) (req req' : Request) (dto dto' : SigninDto) (ds : List ℕ)
    (d t : ℕ)
    → (w : World r) (user : User) → IsRefused env dto w user
    → user.failed_attempts ≡ 0
    → length ds ≡ 4
    → dto'.email ≡ dto.email
    → let before = wait_for d (attempts env req dto ds w) in
      let after = wait_until t (signin env req dto before).1 in
      t < before.now + 1800000 → signin env req' dto' after ≡ (err (http 401 account_locked), after)
lockout env req req' dto dto' ds d t w user h zero_ four same early =
    let (u, g, e) = attempts-IsRefused env req dto ds w user h (omega arith) in
    let before = wait_for d (attempts env req dto ds w) in
    let l =
      signin-IsLocked env dto req before u
        (IsRefused-wait_for env req dto (attempts env req dto ds w) u d g) (omega arith) in
    let l' = IsLocked-wait_until env dto (signin env req dto before).1 (before.now + 1800000) t l in
    signin-error env req' dto' _ _ _ (
      check_credentials-locked env dto' req' (wait_until t (signin env req dto before).1)
        (before.now + 1800000)
        (record {
          user = l'.user;
          known = rw same l'.known;
          present = l'.present;
          active = l'.active;
          until = l'.until;
        })
        early)
