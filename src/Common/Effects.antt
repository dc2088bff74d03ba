-- ===== src/Common/Effects.antt =====
-- State with exceptions: an action returns a value or throws, and what was written before a throw
-- stays written.
use Prim.Native.Nat.{ℕ}
use mathlib.Core.Path.{◌≡◌, refl, sym, ◌∙◌, ap}
use mathlib.Core.Bool.{Bool, true, false}
use mathlib.Core.Option.{Option, none, some}

-- The `key` of an error body, as the code spells it, with `_` for `-`.
pub data Key : Type 0 where
  invalid_credentials user_archive user_inactive account_locked user_not_verified : Key
  invalid_refresh_token expired_refresh_token session_expired invalid_token : Key
  user_already_verified match_old_password password_previously_used password_breached : Key
  no_password_set old_password_not_match email_exist invalid_google_token : Key
  rate_limited role_protected role_name_exists permission_protected permission_key_exists : Key
  permission_not_found user_not_found role_not_found auth_not_found entity_not_found : Key
  entity_not_archived email_taken self_delete self_deactivate user_already_active : Key
  user_already_inactive duplicate_record foreign_key_violation role_permission_not_found : Key
  value_too_long server_error_not_found : Key
  authentication_required unauthorized token_expired insufficient_permissions permission_denied :
      Key

-- `http` is an `HttpException` with its status; `type_error` a read of a field of `null`.
pub data Failure : Type 0 where
  http : ℕ → Key → Failure
  type_error : Failure

pub data Result (A : Type 0) : Type 0 where
  ok : A → Result A
  err : Failure → Result A

abbrev pub Action : Type 0 → Type 0 → Type 0
Action S A = S → Result A × S

module _ {S A : Type 0} where
  abbrev pub pure : A → Action S A
  pure a s = (ok a, s)

  abbrev pub throw : Failure → Action S A
  throw e s = (err e, s)

  abbrev pub gets : (S → A) → Action S A
  gets f s = (ok (f s), s)

  -- `o!.field`: a `TypeError` at `null`
  abbrev pub non_null : Option A → Action S A
  non_null none = throw type_error
  non_null (some a) = pure a

  abbrev pub or_throw : Option A → Failure → Action S A
  or_throw none e = throw e
  or_throw (some a) _ = pure a

infixl 5 ◌>>=◌ ◌>>◌
abbrev pub ◌>>=◌ : {S A B : Type 0} → Action S A → (A → Action S B) → Action S B
◌>>=◌ m f s = let (r, s') = m s in elim r [ ok a ↦ f a s' | err e ↦ (err e, s') ]

abbrev pub ◌>>◌ : {S A B : Type 0} → Action S A → Action S B → Action S B
m >> k = m >>= λ _. k

module _ {S : Type 0} where
  abbrev pub modify : (S → S) → Action S (Unit {0})
  modify f s = (ok tt, f s)

  -- `if (b) throw e`
  abbrev pub throw_if : Bool → Failure → Action S (Unit {0})
  throw_if true e s = (err e, s)
  throw_if false e s = (ok tt, s)

  -- `if (b) m`
  abbrev pub when : Bool → Action S (Unit {0}) → Action S (Unit {0})
  when true m s = m s
  when false m s = (ok tt, s)

-- The first action of a do block returned, or threw.
module _ {S A B : Type 0} (m : Action S A) (f : A → Action S B) where
  pub bind-ok : {a : A} {s s' : S} → m s ≡ (ok a, s') → (m >>= f) s ≡ f a s'
  bind-ok e = ap (λ x. elim x.0 [ ok b ↦ f b x.1 | err y ↦ (err y, x.1) ]) e

  pub bind-err : {x : Failure} {s s' : S} → m s ≡ (err x, s') → (m >>= f) s ≡ (err x, s')
  bind-err e = ap (λ x. elim x.0 [ ok b ↦ f b x.1 | err y ↦ (err y, x.1) ]) e

  -- Where a do block returned, its first action did.
  pub bind-inverse :
      (b : B) (s u : S)
      → (m >>= f) s ≡ (ok b, u)
      → (a : A) × (t : S) × (m s ≡ (ok a, t)) × (f a t ≡ (ok b, u))
  bind-inverse b s u e = go (m s) refl
    where
      go :
          (x : Result A × S) → m s ≡ x → (a : A) × (t : S) × (m s ≡ (ok a, t)) × (f a t ≡ (ok b, u))
      go (ok a, t) h = (a, t, h, sym (bind-ok h) ∙ e)
      go (err y, t) h = let no = sym (bind-err h) ∙ e in absurd cc

pub ok-inverse :
    {S A : Type 0} {a b : A} {s t : S}
    → ◌≡◌ {A = Result A × S} (ok a, s) (ok b, t)
    → (a ≡ b) × (s ≡ t)
ok-inverse {a} e = (ap (λ x. elim x.0 [ ok c ↦ c | err y ↦ a ]) e, ap (λ x. x.1) e)
