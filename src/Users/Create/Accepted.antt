-- ===== src/Users/Create/Accepted.antt =====
-- The account that an administrator made, at its sign-in.
use nestjs_template.Common.{
  ℕ, suc, String, ◌≡◌, ◌≢◌, refl, Bool, true, false, ◌||◌, none, some, List, [], ◌∷◌, ◌++◌, any,
  find, ◌===◌, ◌==◌, ===_refl, eq_iff, Bool-cases, inl, inr, or_else, is_some, Option-cases, ok,
  arith, if◌then◌else◌,
}
use nestjs_template.Redis.{RedisServer}
use nestjs_template.Hash.{create_hash, verify, split_last}
use nestjs_template.Hash.RoundTrip.{NoColon, verify-create_hash}
use nestjs_template.State.{
  World, Env, Request, User, Role, user_created, create_user_mail, wait_until,
}
use nestjs_template.Base.Providers.{create_provider}
use nestjs_template.Users.{by_email, create_user}
use nestjs_template.Users.Create.{CreateUserDto, new_account, create_account}
use nestjs_template.Roles.{live_role}
use nestjs_template.Auth.Signin.{SigninDto, check_credentials, stored_password, is_locked}
use nestjs_template.Auth.Signin.Credentials.{check_credentials_iff}

===_sym : (a b : String) → (a === b) ≡ (b === a)
===_sym a b = ground (arith, eq_iff a b, eq_iff b a)

find-appended :
    (p : User → Bool) (x : User) (us : List User)
    → any p us ≡ false
    → p x ≡ true
    → find p (us ++ x ∷ []) ≡ some x
find-appended p x [] h k = rw k refl
find-appended p x (u ∷ us) h k = ground (arith, find-appended p x us)

-- A hash that a password fits is not empty.
verify-truthy :
    (scrypt : String → String → String) (stored supplied : String)
    → verify scrypt stored supplied ≡ true
    → (stored === "") ≡ false
unfolding verify split_last
verify-truthy scrypt stored supplied h = elim (Bool-cases (stored === "")) [
  | inr full ↦ full
  | inl empty ↦ let no = rw ((eq_iff stored "").0 empty) at h in absurd cc
]

any-clash :
    (email : String) (us : List User)
    → any (λ u. email === u.email || false) us ≡ any (by_email email) us
any-clash email [] = refl
any-clash email (u ∷ us) = ground (arith, ===_sym email u.email, any-clash email us)

live_role-any :
    (id : ℕ) (xs : List Role) (x : Role)
    → find (live_role id) xs ≡ some x
    → any (λ y. y.id == id) xs ≡ true
live_role-any id [] x h = absurd cc
live_role-any id (y ∷ ys) x h = ground (arith, live_role-any id ys x)

-- The row of a new account without a Google id.
create_user-free :
    {r : RedisServer} (u : User) (w : World r)
    → any (by_email u.email) w.users ≡ false
    → any (λ x. x.id == u.role_id) w.roles ≡ true
    → create_user (record u { google_id = none }) w ≡ (
      ok (record u { google_id = none; id = w.next_id }),
      record w {
        next_id = suc w.next_id;
        users = w.users ++ record u { google_id = none; id = w.next_id } ∷ [];
      },
    )
unfolding create_user create_provider
create_user-free u w free linked = ground (arith, free, linked, any-clash u.email w.users)

module _ {r : RedisServer} (env : Env) (dto : CreateUserDto) (w : World r) where
  -- The given password, or the drawn one; the salt is drawn after it.
  abbrev pub plain_password : String
  plain_password = or_else dto.password (env.random w.draws 8)

  abbrev pub salt_draw : ℕ
  salt_draw = if is_some dto.password then w.draws else suc w.draws

  abbrev pub account : User
  account =
      record (new_account dto (create_hash env.scrypt (env.random salt_draw 16) plain_password)) {
        id = w.next_id;
      }

  abbrev pub with_account : World r
  with_account = record w {
    draws = suc salt_draw;
    next_id = suc w.next_id;
    users = w.users ++ account ∷ [];
    outbox =
        if dto.send_email
        then (if env.testing
            then w.outbox
            else create_user_mail dto.email plain_password ∷ w.outbox)
        else w.outbox;
    activity = record { action = user_created; user_id = some w.next_id } ∷ w.activity;
  }

  create_account_eq :
      (role : Role)
      → any (by_email dto.email) w.users ≡ false
      → find (live_role dto.role_id) w.roles ≡ some role
      → create_account env dto w ≡ (ok account, with_account)
  unfolding create_account
  create_account_eq role free live =
      let linked = live_role-any dto.role_id w.roles role live in
      let made =
        create_user-free
          (new_account dto (create_hash env.scrypt (env.random salt_draw 16) plain_password))
          (record w { draws = suc salt_draw }) free linked in
      elim (Bool-cases dto.send_email) [
        | inl mailed ↦ elim (Option-cases dto.password) [
          | inl drawn ↦ ground (arith, free, live, made, mailed, drawn)
          | inr (p, given) ↦ ground (arith, free, live, made, mailed, given)
        ]
        | inr silent ↦ elim (Option-cases dto.password) [
          | inl drawn ↦ ground (arith, free, live, made, silent, drawn)
          | inr (p, given) ↦ ground (arith, free, live, made, silent, given)
        ]
      ]

  abbrev pub signin_dto : SigninDto
  signin_dto = record { email = dto.email; password = plain_password; remember_me = none }

  -- An administrator makes an account where no row has the e-mail and the role is known and not
  -- archived. At whatever time the guards of a sign-in let it through with the password of the
  -- request, or with the one that was drawn without it. The salt holds no colon, and the derived key
  -- is not empty.
  pub check_credentials-create_account :
      (req : Request) (t : ℕ) (role : Role)
      → any (by_email dto.email) w.users ≡ false
      → find (live_role dto.role_id) w.roles ≡ some role
      → NoColon (env.random salt_draw 16)
      → env.scrypt plain_password (env.random salt_draw 16) ≢ ""
      → (create_account env dto w ≡ (ok account, with_account))
        × (check_credentials env req signin_dto (wait_until t with_account)
            ≡ (ok account, wait_until t with_account))
  unfolding is_locked stored_password
  check_credentials-create_account req t role free live salted derived =
      let hash = create_hash env.scrypt (env.random salt_draw 16) plain_password in
      let fits : verify env.scrypt hash plain_password ≡ true =
        (verify-create_hash env.scrypt (env.random salt_draw 16) plain_password plain_password
            salted derived).1
          refl in
      (
        create_account_eq role free live,
        (check_credentials_iff env req signin_dto (wait_until t with_account) account).1 (record {
          known = find-appended (by_email dto.email) account w.users free (===_refl dto.email);
          present = refl;
          active = refl;
          unlocked = refl;
          fits = rw (verify-truthy env.scrypt hash plain_password fits) fits;
          verified = refl;
        }),
      )
