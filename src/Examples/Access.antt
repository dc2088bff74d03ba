-- ===== src/Examples/Access.antt =====
-- Examples for the guards and the logout.
use nestjs_template.Common.{err, http, unauthorized, ◌≡◌, refl, none, some, [], ◌∷◌, ok, arith}
use nestjs_template.Redis.{session_key, Value}
use nestjs_template.Redis.Memory.{memory, memory_laws}
use nestjs_template.State.{World, wait_until}
use nestjs_template.Guards.{
  Call, enter, auth_guard, validate_token, extract_token, is_bearer, permissions_guard, required,
  resource_of, action_of,
}
use nestjs_template.Guards.Revoked.{IsBearing, logout-enter}
use nestjs_template.Guards.Access.{IsAdmitted, enter-IsAdmitted}
use nestjs_template.Client.{take_text}
use nestjs_template.Hibp.Text.{drop_text}
use nestjs_template.Auth.Sessions.{logout, LogoutType}
use nestjs_template.Auth.Sessions.Everywhere.{IsLoggedOut, logout-IsLoggedOut}
use nestjs_template.Examples.{an_env, a_world, ann_payload}

abbrev a_call : Call
a_call = record {
  auth_types = none;
  skip_permissions = none;
  required_permissions = none;
  controller_path = some "/users";
  method = "GET";
  cookies = [];
  authorization = some "Bearer signed";
}

enter-IsAdmitted_example : IsAdmitted an_env a_world a_call (some ann_payload)
unfolding enter auth_guard validate_token extract_token is_bearer permissions_guard required
    resource_of action_of take_text drop_text
enter-IsAdmitted_example = enter-IsAdmitted an_env a_world a_call (some ann_payload) refl

-- Ann is signed in on one device.
abbrev online : World memory
online = record a_world {
  redis =
      (
        session_key 7 "family" "session",
        some (
          Value.session (record {
            access_token = "access";
            refresh_token = "refresh";
            ip = "10.0.0.1";
            user_agent = "curl/8";
            created_at = 1000;
          }),
          none,
        ),
      )
      ∷ [];
}

logout-IsLoggedOut_example :
    ((logout an_env ann_payload LogoutType.all none online).0 ≡ ok tt)
    × IsLoggedOut memory_laws an_env ann_payload none online 2000
        (logout an_env ann_payload LogoutType.all none online).1
logout-IsLoggedOut_example =
    logout-IsLoggedOut memory_laws an_env ann_payload none online 2000 (omega arith) (omega arith)
      (omega arith)

-- Ann's browser presents the access token of the session that was closed.
abbrev browser : Call
browser = record a_call { authorization = some "Bearer access" }

browser-IsBearing : IsBearing browser "access"
unfolding extract_token is_bearer take_text drop_text
browser-IsBearing = record { presented = refl; closed = refl; strict = refl; known = refl }

logout-enter_example :
    enter an_env (wait_until 2000 (logout an_env ann_payload LogoutType.all none online).1) browser
    ≡ err (http 401 unauthorized)
logout-enter_example =
    logout-enter an_env browser memory_laws online ann_payload none 2000 "family" "session"
      (record {
        access_token = "access";
        refresh_token = "refresh";
        ip = "10.0.0.1";
        user_agent = "curl/8";
        created_at = 1000;
      })
      refl refl browser-IsBearing (omega arith) (omega arith) (omega arith)
