-- ===== src/Auth/Tokens/Clean.antt =====
-- What is left in the refresh-token table after a revocation and a cleanup.
use nestjs_template.Common.{
  ℕ, String, ◌≡◌, ◌≢◌, true, false, not, Option, none, some, List, [], ◌∷◌, All, select,
  update_where, truthy, ◌==◌, arith, ◌∙◌, select-select, select-update_where,
}
use nestjs_template.State.{RefreshToken, Reason}
use nestjs_template.Auth.Tokens.{is_open, revocable, mark_revoked, is_stale, same_family}

-- After all tokens of a user are revoked, the cleanup leaves none of them.
pub cleanup-revoke_user :
    (now u : ℕ) (reason : Reason) (ts : List RefreshToken)
    → All
        (λ t. t.user_id ≢ u)
        (select
          (λ t. not (is_stale now u t))
          (update_where (revocable (some u) none) (mark_revoked now reason) ts))
cleanup-revoke_user now u reason [] = tt
cleanup-revoke_user now u reason (t ∷ ts) = ground (arith, cleanup-revoke_user now u reason ts)

-- After the tokens of a device are revoked, every token of the user that the cleanup leaves is of
-- another device and was open.
pub cleanup-revoke_family :
    (now u : ℕ) (f : String) (reason : Reason) (ts : List RefreshToken)
    → truthy f ≡ true
    → All
        (λ t. t.user_id ≡ u → (same_family t.family_id f ≡ false) × (is_open t ≡ true))
        (select
          (λ t. not (is_stale now u t))
          (update_where (revocable (some u) (some f)) (mark_revoked now reason) ts))
cleanup-revoke_family now u f reason [] h = tt
cleanup-revoke_family now u f reason (t ∷ ts) h =
    ground (arith, cleanup-revoke_family now u f reason ts h)

-- No revocation and no cleanup touches the rows of another user.
pub other_user_kept :
    (now u v : ℕ) (f : Option String) (reason : Reason) (ts : List RefreshToken)
    → u ≢ 0
    → v ≢ u
    → select
        (λ t. t.user_id == v)
        (select
          (λ t. not (is_stale now u t))
          (update_where (revocable (some u) f) (mark_revoked now reason) ts))
      ≡ select (λ t. t.user_id == v) ts
other_user_kept now u v f reason ts p q =
    select-select _ _ (update_where (revocable (some u) f) (mark_revoked now reason) ts)
      (λ t e. ground arith)
    ∙ select-update_where _ _ (mark_revoked now reason) ts (λ t e. (ground arith, ground arith))
