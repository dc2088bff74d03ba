-- ===== src/Examples/Credentials.antt =====
-- Examples for the sign-in guards and the lock.
use nestjs_template.Common.{
  ◌≡◌, refl, ◌↔◌, [], ◌∷◌, ok, err, http, account_locked, invalid_credentials, arith,
}
use nestjs_template.State.{wait_until}
use nestjs_template.Hash.{verify, split_last}
use nestjs_template.Users.{update_user}
use nestjs_template.Base.Providers.{update_provider}
use nestjs_template.Auth.Signin.{
  signin, check_credentials, reject_password, stored_password, is_locked, count_failure,
}
use nestjs_template.Auth.Signin.Credentials.{
  IsEntitled, IsRefused, IsCounted, check_credentials_iff, signin_refused,
}
use nestjs_template.Auth.Signin.Lockout.{attempts, wait_for, lockout}
use nestjs_template.Redis.Memory.{memory_laws}
use nestjs_template.Auth.Signin.Success.{tokens, IsSignedIn, signin-IsSignedIn}
use nestjs_template.Examples.{an_env, a_request, a_world, ann, right_dto, wrong_dto}

pub ann-IsEntitled : IsEntitled an_env right_dto a_world ann
unfolding is_locked stored_password verify split_last
ann-IsEntitled = record {
  known = refl;
  present = refl;
  active = refl;
  unlocked = refl;
  fits = refl;
  verified = refl;
}

ann-IsRefused : IsRefused an_env wrong_dto a_world ann
unfolding is_locked stored_password verify split_last
ann-IsRefused = record {
  known = refl;
  own = refl;
  present = refl;
  active = refl;
  unlocked = refl;
  differs = refl;
}

check_credentials_iff_example :
    (check_credentials an_env a_request right_dto a_world ≡ (ok ann, a_world))
    ↔ IsEntitled an_env right_dto a_world ann
check_credentials_iff_example = check_credentials_iff an_env a_request right_dto a_world ann

signin_refused_example :
    let out = signin an_env a_request wrong_dto a_world in
    (out.0 ≡ err (http 401 invalid_credentials)) × IsCounted a_world ann out.1
signin_refused_example = signin_refused an_env a_request wrong_dto a_world ann ann-IsRefused

-- Five guesses in five seconds; a minute later the right password is refused.
lockout_example :
    let before =
      wait_for 1000
        (attempts an_env a_request wrong_dto (1000 ∷ 1000 ∷ 1000 ∷ 1000 ∷ []) a_world) in
    let after = wait_until 66000 (signin an_env a_request wrong_dto before).1 in
    signin an_env a_request right_dto after ≡ (err (http 401 account_locked), after)
unfolding signin check_credentials reject_password update_user update_provider count_failure
    is_locked stored_password verify split_last
lockout_example =
    lockout an_env a_request a_request wrong_dto right_dto (1000 ∷ 1000 ∷ 1000 ∷ 1000 ∷ []) 1000
      66000 a_world ann ann-IsRefused refl refl refl (omega arith)

signin-IsSignedIn_example :
    ((signin an_env a_request right_dto a_world).0
      ≡ ok (ann, tokens an_env a_request right_dto a_world ann))
    × IsSignedIn an_env a_request right_dto a_world ann 5000
        (signin an_env a_request right_dto a_world).1
signin-IsSignedIn_example =
    signin-IsSignedIn an_env a_request right_dto a_world ann memory_laws 5000 ann-IsEntitled refl
      (omega arith)
