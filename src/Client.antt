-- ===== src/Client.antt =====
-- What identifies a client: src/common/utils/client-ip.util.ts, client-agent.util.ts and
-- device-fingerprint.util.ts. Base 64 is that of Node's `Buffer`, over a list of bytes.
pub mod Fingerprint
use Prim.Native.String
use nestjs_template.Common.{ℕ, zero, suc, ◌+◌, ◌*◌, ◌/◌, ◌%◌, String, or_else, List, [], ◌∷◌, take}
use nestjs_template.State.{Request, Env}

-- `req.ip ?? req.connection?.remoteAddress ?? 'unknown'`
unfoldable pub client_ip : Request → String
client_ip req = or_else req.ip (or_else req.remote_address "unknown")

-- The first characters of a text.
unfoldable pub take_text : ℕ → String → String
take_text zero s = ""
take_text (suc n) String.[] = ""
take_text (suc n) (String.◌∷◌ c s) = String.◌∷◌ c (take_text n s)

-- A longer header is cut to 512 characters; a shorter one is its own beginning.
unfoldable pub client_agent : Request → String
client_agent req = take_text 512 (or_else req.user_agent "")

-- The character at a place of the alphabet.
nth : String → ℕ → String
nth String.[] n = ""
nth (String.◌∷◌ c s) zero = String.◌∷◌ c ""
nth (String.◌∷◌ c s) (suc n) = nth s n

digit : ℕ → String
digit = nth "ABCDEFGHIJKLMNOPQRSTUVWXYZabcdefghijklmnopqrstuvwxyz0123456789+/"

-- `toString('base64')`, one text for each character.
pub base64 : List ℕ → List String
base64 [] = []
base64 (a ∷ []) = digit (a / 4) ∷ digit ((a % 4) * 16) ∷ "=" ∷ "=" ∷ []
base64 (a ∷ b ∷ []) =
    digit (a / 4) ∷ digit ((a % 4) * 16 + b / 16) ∷ digit ((b % 16) * 4) ∷ "=" ∷ []
base64 (a ∷ b ∷ c ∷ rest) =
    digit (a / 4)
    ∷ digit ((a % 4) * 16 + b / 16)
    ∷ digit ((b % 16) * 4 + c / 64)
    ∷ digit (c % 64)
    ∷ base64 rest

pub concat : List String → String
concat [] = ""
concat (s ∷ ss) = String.◌++◌ s (concat ss)

-- The text `ip|agent`, in base 64, cut to 64 characters.
unfoldable pub device_fingerprint : Env → Request → String
unfolding base64 concat nth digit take_text client_ip client_agent
device_fingerprint env req =
    concat (
      take 64
        (base64 (env.utf8 (String.◌++◌ (client_ip req) (String.◌++◌ "|" (client_agent req))))))
