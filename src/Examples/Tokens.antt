-- ===== src/Examples/Tokens.antt =====
-- Examples for hashes, verification codes and fingerprints.
use Prim.Native.String
use nestjs_template.Common.{
  String, ◌+◌, ◌*◌, ◌≡◌, refl, ◌↔◌, true, ok, err, http, invalid_token, ltb, if◌then◌else◌, eq_iff,
  arith, some, none,
}
use nestjs_template.Redis.{TokenType}
use nestjs_template.Redis.Memory.{memory_laws}
use nestjs_template.Hash.{verify, create_hash}
use nestjs_template.Hash.RoundTrip.{verify-create_hash}
use nestjs_template.State.{Request, wait_until}
use nestjs_template.Client.{client_ip, client_agent, take_text, device_fingerprint}
use nestjs_template.Client.Fingerprint.{device_fingerprint_prefix}
use nestjs_template.Auth.Verification.{verify_token, create_token}
use nestjs_template.Auth.Verification.SingleUse.{verify_token_once, verify-create_token}
use nestjs_template.Examples.{an_env, a_request, a_world, ann, bob, bytes}

verify-create_hash_example :
    (verify an_env.scrypt (create_hash an_env.scrypt "00" "secret") "guess" ≡ true)
    ↔ (an_env.scrypt "guess" "00" ≡ an_env.scrypt "secret" "00")
verify-create_hash_example =
    verify-create_hash an_env.scrypt "00" "secret" "guess" (ground arith, (ground arith, tt))
      (ground (arith, eq_iff "secret00" ""))

-- A wrong code, then another.
verify_token_once_example :
    (verify_token TokenType.forgot_password "ann@example.org" "12"
      (verify_token TokenType.forgot_password "ann@example.org" "0a1b" a_world).1).0
    ≡ err (http 400 invalid_token)
verify_token_once_example =
    verify_token_once TokenType.forgot_password "ann@example.org" ann memory_laws a_world "0a1b"
      "12" refl refl

verify-create_token_example :
    ((create_token an_env a_request TokenType.verify_email bob a_world).0 ≡ ok "0a1b")
    × ((verify_token TokenType.verify_email "bob@example.org" "0a1b"
          (wait_until 5000 (create_token an_env a_request TokenType.verify_email bob a_world).1)).0
        ≡ (if ltb 5000 (1000 + 240 * 1000) then ok bob else err (http 400 invalid_token)))
verify-create_token_example =
    verify-create_token TokenType.verify_email "bob@example.org" bob memory_laws an_env a_request
      a_world 5000 (omega arith) refl refl

-- Two user agents that differ after their forty-first character.
abbrev agent_with : String → Request
agent_with suffix = record {
  ip = some "1.2.3.4";
  remote_address = none;
  user_agent = some (String.◌++◌ "Mozilla/5.0 (X11; Linux x86_64; rv:109.0)" suffix);
}

device_fingerprint_prefix_example :
    device_fingerprint an_env (agent_with " Firefox")
    ≡ device_fingerprint an_env (agent_with " Chrome")
unfolding client_ip client_agent take_text bytes
device_fingerprint_prefix_example =
    device_fingerprint_prefix an_env (agent_with " Firefox") (agent_with " Chrome")
      (bytes "1.2.3.4|Mozilla/5.0 (X11; Linux x86_64; rv:109.0") (bytes ") Firefox")
      (bytes ") Chrome") refl refl refl
