-- ===== src/Jwt.antt =====
-- src/shared/jwt/jwt.service.ts over the JWT library of `Env`.
use nestjs_template.Common.{ℕ, String, Bool, if◌then◌else◌}
use nestjs_template.State.{Env, JwtPayload, Verified, access, refresh}

module _ (env : Env) where
  -- in seconds
  abbrev pub get_refresh_ttl : Bool → ℕ
  get_refresh_ttl remember_me =
      if remember_me then env.remember_me_refresh_token_expired_in else env.refresh_token_expired_in

  abbrev pub get_access_ttl : ℕ
  get_access_ttl = env.access_token_expired_in

  abbrev pub sign_access_token : ℕ → JwtPayload → String
  sign_access_token now p = env.sign access env.access_token_expired_in now p

  abbrev pub sign_refresh_token : ℕ → JwtPayload → Bool → String
  sign_refresh_token now p remember_me = env.sign refresh (get_refresh_ttl remember_me) now p

  abbrev pub verify_access_token : ℕ → String → Verified
  verify_access_token now token = env.verify_jwt access now token

  abbrev pub verify_refresh_token : ℕ → String → Verified
  verify_refresh_token now token = env.verify_jwt refresh now token
