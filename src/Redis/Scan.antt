-- ===== src/Redis/Scan.antt =====
-- `RedisService.scan` of src/shared/redis/redis.service.ts: the loop over the server's cursor. The
-- server's `SCAN` is a parameter: the next cursor and a batch of keys for a cursor.
use nestjs_template.Common.{
  ℕ, zero, suc, ◌≤◌, String, ◌≡◌, ◌∙◌, refl, false, Option, none, some, List, [], ◌∷◌, ◌++◌, ◌===◌,
  arith, if◌then◌else◌,
}

abbrev Server : Type 0
Server = String → String × List String

-- One round for each unit of fuel; `none` where it runs out.
unfoldable pub scan_loop : Server → ℕ → String → List String → Option (List String)
scan_loop server zero cursor results = none
scan_loop server (suc fuel) cursor results =
    let (next, keys) = server cursor in
    let rest = scan_loop server fuel next (results ++ keys) in
    if next === "0" then some (results ++ keys) else rest

unfoldable pub scan : Server → ℕ → Option (List String)
scan server fuel = scan_loop server fuel "0" []

-- A full iteration of the server from a cursor: its rounds, and its batches one after the other.
pub data Iteration (server : Server) : String → ℕ → List String → Type 0 where
  last :
      {cursor : String} {keys : List String}
      → server cursor ≡ ("0", keys)
      → Iteration server cursor 1 keys
  more :
      {cursor next : String} {n : ℕ} {keys rest : List String}
      → server cursor ≡ (next, keys)
      → (next === "0") ≡ false
      → Iteration server next n rest
      → Iteration server cursor (suc n) (keys ++ rest)

append-append : {A : Type 0} (xs ys zs : List A) → (xs ++ ys) ++ zs ≡ xs ++ (ys ++ zs)
append-append [] ys zs = refl
append-append (x ∷ xs) ys zs = rw (append-append xs ys zs) refl

scan_loop-Iteration :
    (server : Server) (fuel : ℕ) (results : List String) {cursor : String} {n : ℕ}
    {keys : List String}
    → Iteration server cursor n keys
    → n ≤ fuel
    → scan_loop server fuel cursor results ≡ some (results ++ keys)
unfolding scan_loop
scan_loop-Iteration server zero results (last e) h = absurd (omega arith)
scan_loop-Iteration server zero results (more e k i) h = absurd (omega arith)
scan_loop-Iteration server (suc fuel) results (last e) h = rw e refl
scan_loop-Iteration server (suc fuel) results (more {keys} {rest} e k i) h =
    rw (e, k)
      (scan_loop-Iteration server fuel (results ++ keys) i (omega arith)
        ∙ rw (append-append results keys rest) refl)

-- The loop ends, after as many rounds as the server's iteration has, with all its batches one after
-- the other.
pub scan-Iteration :
    (server : Server) (fuel n : ℕ) (keys : List String)
    → Iteration server "0" n keys
    → n ≤ fuel
    → scan server fuel ≡ some keys
unfolding scan
scan-Iteration server fuel n keys i h = scan_loop-Iteration server fuel [] i h
