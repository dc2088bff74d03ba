-- ===== src/Auth/Verification/SingleUse.antt =====
-- A verification code works once, and only within its time.
use nestjs_template.Common.{
  ℕ, String, ◌≤◌, ◌≡◌, refl, false, ◌&&◌, Option, none, some, find, arith, ok, err, http,
  invalid_token, ===_refl, if◌then◌else◌, Bool-cases, inl, inr, ltb, ◌+◌, ◌*◌,
}
use nestjs_template.Redis.{
  RedisServer, RedisLaws, TokenType, same_type, verification_token, same_key_refl,
  VerificationTokenRecord, verification_of,
}
use nestjs_template.State.{Env, World, User, Request, wait_until}
use nestjs_template.Users.{by_email}
use nestjs_template.Auth.Verification.{verify_token, create_token, token_differs}

module _ {r : RedisServer} (type : TokenType) (email : String) (user : User) where
  -- The state after a code was looked for.
  abbrev consumed : World r → World r
  consumed w = record w { redis = r.remove (verification_token type user.id) w.redis }

  abbrev present : World r → Option VerificationTokenRecord
  present w = verification_of (r.get w.now (verification_token type user.id) w.redis)

  verify_token_eq :
      (w : World r) (a : String)
      → find (by_email email) w.users ≡ some user
      → (same_type type TokenType.verify_email && user.email_verified) ≡ false
      → verify_token type email a w ≡ (
          if token_differs (present w) a
          then (err (http 400 invalid_token), consumed w)
          else (ok user, consumed w))
  unfolding verify_token
  verify_token_eq w a known pending = ground arith

  verify_token-state :
      (w : World r) (a : String)
      → find (by_email email) w.users ≡ some user
      → (same_type type TokenType.verify_email && user.email_verified) ≡ false
      → (verify_token type email a w).1 ≡ consumed w
  verify_token-state w a known pending = rw (verify_token_eq w a known pending) (ground arith)

  module _ (laws : RedisLaws r) where
    present-consumed : (w : World r) → present (consumed w) ≡ none
    present-consumed w =
        rw
          (laws.get-remove w.now (verification_token type user.id) (verification_token type user.id)
            w.redis)
          (rw (same_key_refl (verification_token type user.id)))

    -- For a known account whose address is not yet verified, or with a code for another purpose:
    -- whatever was presented the first time, right or wrong, any second code is refused.
    pub verify_token_once :
        (w : World r) (a b : String)
        → find (by_email email) w.users ≡ some user
        → (same_type type TokenType.verify_email && user.email_verified) ≡ false
        → (verify_token type email b (verify_token type email a w).1).0
          ≡ err (http 400 invalid_token)
    verify_token_once w a b known pending =
        rw (verify_token-state w a known pending)
          (rw (verify_token_eq (consumed w) b known pending) (rw (present-consumed w)))

    -- A code that was created for an account is accepted for four minutes, and refused from then on,
    -- if it is the first that is presented.
    pub verify-create_token :
        (env : Env) (req : Request) (w : World r) (t : ℕ)
        → w.now ≤ t
        → find (by_email email) w.users ≡ some user
        → (same_type type TokenType.verify_email && user.email_verified) ≡ false
        → let code = env.random w.draws 32 in
          ((create_token env req type user w).0 ≡ ok code)
          × ((verify_token type email code (wait_until t (create_token env req type user w).1)).0
              ≡ (if ltb t (w.now + 240 * 1000) then ok user else err (http 400 invalid_token)))
    unfolding create_token
    verify-create_token env req w t le known pending =
        let w' = wait_until t (create_token env req type user w).1 in
        (
          refl,
          rw (verify_token_eq w' (env.random w.draws 32) known pending) (
              rw
                (laws.get-put_ex t w.now (verification_token type user.id)
                  (verification_token type user.id) _ _ w.redis le)
                (rw (same_key_refl (verification_token type user.id))
                  (elim (Bool-cases (ltb t (w.now + 240 * 1000))) [
                    | inl e ↦ rw e (ground (arith, ===_refl (env.random w.draws 32)))
                    | inr e ↦ rw e
                  ]))),
        )
