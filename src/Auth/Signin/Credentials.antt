-- ===== src/Auth/Signin/Credentials.antt =====
-- The guards of a sign-in: who gets in, and what a wrong password does.
use nestjs_template.Common.{
  ◌≡◌, refl, ap, ◌↔◌, Bool, true, false, none, some, ◌∷◌, find, update_first, arith, Result, ok,
  err, http, Failure, Option-cases, inl, inr, ◌≢◌, invalid_credentials, ℕ, List, [], ◌+◌, ◌==◌,
  ==_iff, ==_refl, sym, ◌∙◌, Bool-cases, find-update_first, leb, if◌then◌else◌,
}
use nestjs_template.Redis.{RedisServer}
use nestjs_template.Hash.{verify}
use nestjs_template.State.{Env, Request, World, User, signin_failed, profile_updated}
use nestjs_template.Users.{update_user, by_id, by_email}
use nestjs_template.Base.Providers.{update_provider}
use nestjs_template.Auth.Signin.{
  SigninDto, check_credentials, reject_password, stored_password, is_locked, count_failure, signin,
  Tokens,
}

module _ {r : RedisServer} (env : Env) (dto : SigninDto) where
  -- The account that a sign-in needs.
  pub record IsEntitled (w : World r) (user : User) : Type 0 where
    pub known : find (by_email dto.email) w.users ≡ some user
    pub present : user.is_deleted ≡ false
    pub active : user.is_active ≡ true
    pub unlocked : is_locked w.now user ≡ false
    pub fits : verify env.scrypt (stored_password (some user)) dto.password ≡ true
    pub verified : user.email_verified ≡ true

  -- The account whose password is wrong.
  pub record IsRefused (w : World r) (user : User) : Type 0 where
    pub known : find (by_email dto.email) w.users ≡ some user
    pub own : find (by_id user.id) w.users ≡ some user
    pub present : user.is_deleted ≡ false
    pub active : user.is_active ≡ true
    pub unlocked : is_locked w.now user ≡ false
    pub differs : verify env.scrypt (stored_password (some user)) dto.password ≡ false

module _ {r : RedisServer} (env : Env) (req : Request) (dto : SigninDto) where
  reject_password-error :
      (w : World r) (user : User) → (reject_password env req user w).0 ≡ ok tt → ⊥
  unfolding reject_password update_user update_provider
  reject_password-error w user h = ground arith

  check_credentials-found :
      (w : World r) (u user : User) (m locked : Bool)
      → find (by_email dto.email) w.users ≡ some u
      → verify env.scrypt (stored_password (some u)) dto.password ≡ m
      → is_locked w.now u ≡ locked
      → (check_credentials env req dto w).0 ≡ ok user
      → (u ≡ user)
        × (u.is_deleted ≡ false)
        × (u.is_active ≡ true)
        × (locked ≡ false)
        × (m ≡ true)
        × (u.email_verified ≡ true)
  unfolding check_credentials
  check_credentials-found w u user m locked known fits lock h =
      ground (arith, reject_password-error w u)

  check_credentials-unknown :
      (w : World r) (user : User)
      → find (by_email dto.email) w.users ≡ none
      → (check_credentials env req dto w).0 ≢ ok user
  unfolding check_credentials
  check_credentials-unknown w user e h = ground arith

  check_credentials-IsEntitled :
      (w : World r) (user : User)
      → (check_credentials env req dto w).0 ≡ ok user
      → IsEntitled env dto w user
  check_credentials-IsEntitled w user h = elim (Option-cases (find (by_email dto.email) w.users)) [
    | inl e ↦ absurd (check_credentials-unknown w user e h)
    | inr (u, e) ↦
        let (same, a, b, c, d, f) = check_credentials-found w u user _ _ e refl refl h in
        record {
          known = rw (← same) e;
          present = rw (← same) a;
          active = rw (← same) b;
          unlocked = rw (← same) c;
          fits = rw (← same) d;
          verified = rw (← same) f;
        }
  ]

  -- The guards let exactly the entitled account through, and change nothing then.
  pub check_credentials_iff :
      (w : World r) (user : User)
      → (check_credentials env req dto w ≡ (ok user, w)) ↔ IsEntitled env dto w user
  unfolding check_credentials
  check_credentials_iff w user =
      (λ h. check_credentials-IsEntitled w user (ap (λ p. p.0) h), λ h. ground (arith, h.known))

  -- A sign-in that succeeds was that of an entitled account, whose row it returns.
  pub signin-IsEntitled :
      (w : World r) (user : User) (tokens : Tokens)
      → (signin env req dto w).0 ≡ ok (user, tokens)
      → IsEntitled env dto w user
  unfolding signin
  signin-IsEntitled w user tokens h = go (check_credentials env req dto w) refl
    where
      go :
          (c : Result User × World r)
          → check_credentials env req dto w ≡ c
          → IsEntitled env dto w user
      go (ok u, w') e = check_credentials-IsEntitled w user (ground arith)
      go (err x, w') e = absurd (ground arith)

  pub signin-error :
      (w w' : World r) (e : Failure)
      → check_credentials env req dto w ≡ (err e, w')
      → signin env req dto w ≡ (err e, w')
  unfolding signin
  signin-error w w' e h = ground arith

  -- The state after a wrong password.
  abbrev pub counted : World r → User → World r
  counted w user = record w {
    users = update_first (by_id user.id) (count_failure w.now user) w.users;
    activity =
        record { action = signin_failed; user_id = some user.id }
        ∷ record { action = profile_updated; user_id = some user.id }
        ∷ w.activity;
  }

  reject_password_eq :
      (w : World r) (user : User)
      → find (by_id user.id) w.users ≡ some user
      → user.is_deleted ≡ false
      → reject_password env req user w ≡ (err (http 401 invalid_credentials), counted w user)
  unfolding reject_password update_user update_provider count_failure
  reject_password_eq w user own present = ground arith

  check_credentials-wrong :
      (w : World r) (user : User)
      → IsRefused env dto w user
      → check_credentials env req dto w ≡ (err (http 401 invalid_credentials), counted w user)
  unfolding check_credentials
  check_credentials-wrong w user h = ground (
    arith,
    h.known,
    h.present,
    h.active,
    h.unlocked,
    h.differs,
    reject_password_eq w user h.own h.present,
  )

  pub signin-counted :
      (w : World r) (user : User)
      → IsRefused env dto w user
      → signin env req dto w ≡ (err (http 401 invalid_credentials), counted w user)
  signin-counted w user h =
      signin-error w (counted w user) (http 401 invalid_credentials)
        (check_credentials-wrong w user h)

-- The row of the account has one failure more, and from the fifth on a lock for thirty minutes; the
-- other rows and the other tables, but for the log, are as they were.
pub record IsCounted {r : RedisServer} (w : World r) (user : User) (w' : World r) : Type 0 where
  pub row :
      find (by_id user.id) w'.users
      ≡ some (record user {
        failed_attempts = user.failed_attempts + 1;
        locked_until =
            if leb 5 (user.failed_attempts + 1) then some (w.now + 1800000) else user.locked_until;
      })
  pub others : (n : ℕ) → n ≢ user.id → find (by_id n) w'.users ≡ find (by_id n) w.users
  pub redis : w'.redis ≡ w.redis
  pub outbox : w'.outbox ≡ w.outbox
  pub refresh_tokens : w'.refresh_tokens ≡ w.refresh_tokens
  pub login_histories : w'.login_histories ≡ w.login_histories
  pub password_histories : w'.password_histories ≡ w.password_histories
  pub roles : w'.roles ≡ w.roles
  pub permissions : w'.permissions ≡ w.permissions
  pub role_permissions : w'.role_permissions ≡ w.role_permissions

find-update_other :
    (n m : ℕ) (f : User → User) (us : List User)
    → n ≢ m
    → ((u : User) → (f u).id ≡ u.id)
    → find (by_id n) (update_first (by_id m) f us) ≡ find (by_id n) us
find-update_other n m f [] h same = refl
find-update_other n m f (u ∷ us) h same = elim (Bool-cases (u.id == m)) [
  | inl e ↦
      let e' = (==_iff u.id m).0 e in
      rw e (elim (Bool-cases (u.id == n)) [
        | inl q ↦ absurd (h (sym ((==_iff u.id n).0 q) ∙ e'))
        | inr q ↦ ground (arith, same u)
      ])
  | inr e ↦ ground (arith, find-update_other n m f us h same)
]

module _ {r : RedisServer} (env : Env) (req : Request) (dto : SigninDto) where
  -- After a wrong password the row of the account has one failed attempt more, and from the fifth
  -- on a lock for thirty minutes; the rows of other ids and the other tables, but for the log, are
  -- as they were, and the caller learns only that the credentials are invalid. The account is known,
  -- neither archived nor inactive nor locked, and its id is its own.
  pub signin_refused :
      (w : World r) (user : User)
      → IsRefused env dto w user
      → ((signin env req dto w).0 ≡ err (http 401 invalid_credentials))
        × IsCounted w user (signin env req dto w).1
  unfolding count_failure
  signin_refused w user h = rw (signin-counted env req dto w user h) (
    refl,
    record {
      row =
          find-update_first (by_id user.id) (by_id user.id) (count_failure w.now user) user w.users
            h.own h.own (==_refl user.id);
      others = λ n k. find-update_other n user.id (count_failure w.now user) w.users k (λ u. refl);
      redis = refl;
      outbox = refl;
      refresh_tokens = refl;
      login_histories = refl;
      password_histories = refl;
      roles = refl;
      permissions = refl;
      role_permissions = refl;
    },
  )
