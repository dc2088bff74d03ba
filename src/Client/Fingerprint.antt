-- ===== src/Client/Fingerprint.antt =====
-- What a fingerprint depends on.
use Prim.Native.String
use nestjs_template.Common.{ℕ, zero, suc, ◌≡◌, refl, ap, List, [], ◌∷◌, ◌++◌, length, take, arith}
use nestjs_template.State.{Request, Env}
use nestjs_template.Client.{client_ip, client_agent, base64, concat, device_fingerprint}

abbrev threes : ℕ → ℕ
threes zero = 0
threes (suc n) = suc (suc (suc (threes n)))

abbrev fours : ℕ → ℕ
fours zero = 0
fours (suc n) = suc (suc (suc (suc (fours n))))

-- Four characters for each three bytes: the first `4 n` characters come from the first `3 n` bytes.
take-base64 :
    (n : ℕ) (p xs ys : List ℕ)
    → length p ≡ threes n
    → take (fours n) (base64 (p ++ xs)) ≡ take (fours n) (base64 (p ++ ys))
unfolding base64
take-base64 zero p xs ys e = refl
take-base64 (suc n) [] xs ys e = cc
take-base64 (suc n) (a ∷ []) xs ys e = absurd (omega arith)
take-base64 (suc n) (a ∷ b ∷ []) xs ys e = absurd (omega arith)
take-base64 (suc n) (a ∷ b ∷ c ∷ p) xs ys e = let same = take-base64 n p xs ys (omega arith) in cc

-- The bytes of the text that is fingerprinted.
abbrev pub identity_bytes : Env → Request → List ℕ
identity_bytes env req = env.utf8 (String.◌++◌ (client_ip req) (String.◌++◌ "|" (client_agent req)))

-- Two clients whose identities agree on their first 48 bytes have one fingerprint, whatever follows:
-- what a longer user agent says after these bytes is not seen.
pub device_fingerprint_prefix :
    (env : Env) (a b : Request) (p xs ys : List ℕ)
    → length p ≡ 48
    → identity_bytes env a ≡ p ++ xs
    → identity_bytes env b ≡ p ++ ys
    → device_fingerprint env a ≡ device_fingerprint env b
unfolding device_fingerprint
device_fingerprint_prefix env a b p xs ys e ea eb =
    rw (ea, eb) (ap concat (take-base64 16 p xs ys e))
