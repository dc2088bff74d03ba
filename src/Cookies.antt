-- ===== src/Cookies.antt =====
-- src/shared/cookie: the cookies of a session. The calls on Express' response are kept, the last one
-- first.
use nestjs_template.Common.{
  ℕ, ◌*◌, String, Bool, true, Option, none, some, List, [], ◌∷◌, ◌&&◌, ◌===◌, if◌then◌else◌,
}
use nestjs_template.State.{Env}

-- What identifies and restricts a cookie.
pub record Attributes : Type 0 where
  pub name : String
  pub path : String
  pub http_only : Bool
  pub secure : Bool
  pub same_site : String

-- `res.cookie(name, value, …)`, with the maximal age in milliseconds, and `res.clearCookie(name, …)`
pub data CookieCall : Type 0 where
  set_cookie : Attributes → String → ℕ → CookieCall
  clear_cookie : Attributes → CookieCall

-- COOKIE, by whether the application runs in production
abbrev pub access_cookie : Bool → Attributes
access_cookie production = record {
  name = "accessToken";
  path = "/";
  http_only = true;
  secure = production;
  same_site = "strict";
}

abbrev pub refresh_cookie : Bool → Attributes
refresh_cookie production = record {
  name = "refreshToken";
  path = "/v1/auth";
  http_only = true;
  secure = production;
  same_site = "strict";
}

-- `setAuth`
unfoldable pub set_auth : Env → Bool → String → String → List CookieCall → List CookieCall
set_auth env production access_token refresh_token calls =
    set_cookie (refresh_cookie production) refresh_token (env.refresh_token_expired_in * 1000)
    ∷ set_cookie (access_cookie production) access_token (env.access_token_expired_in * 1000)
    ∷ calls

-- `clearAuth`
unfoldable pub clear_auth : Bool → List CookieCall → List CookieCall
clear_auth production calls =
    clear_cookie (refresh_cookie production) ∷ clear_cookie (access_cookie production) ∷ calls

abbrev same_cookie : Attributes → Attributes → Bool
same_cookie a b = a.name === b.name && a.path === b.path

-- What the calls leave of a cookie: the last one that is about it decides.
unfoldable pub cookie_value : Attributes → List CookieCall → Option String
cookie_value a [] = none
cookie_value a (set_cookie b value age ∷ calls) =
    let before = cookie_value a calls in if same_cookie a b then some value else before
cookie_value a (clear_cookie b ∷ calls) =
    let before = cookie_value a calls in if same_cookie a b then none else before
