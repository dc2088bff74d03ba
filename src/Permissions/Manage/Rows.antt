-- ===== src/Permissions/Manage/Rows.antt =====
-- What `UpsertPermissionProvider` leaves in the table.
use nestjs_template.Common.{
  ℕ, suc, String, ◌≡◌, ◌∙◌, sym, refl, ap, Bool, true, false, not, ◌||◌, List, [], ◌∷◌, ◌++◌, map,
  any, select, member, Has, here, there, Has-cons, any-Has, Has-any, select-Has, Has-select,
  Has-left, Has-right, length, ◌==◌, ◌===◌, ok, err, http, arith, bind-inverse, append_assoc,
  append-nil, duplicate_record, ok-inverse, ==_refl, eq_iff, Bool-cases, inl, inr, pure, All,
  All-of_Has,
}
use nestjs_template.Redis.{RedisServer}
use nestjs_template.State.{World, Permission}
use nestjs_template.State.Tables.{permissions}
use nestjs_template.Base.Repository.{create, create_many}
use nestjs_template.Base.Created.{create_many-inverse}
use nestjs_template.Roles.Discovery.{Item}
use nestjs_template.Permissions.Manage.{
  member_text, synced_permission, Upserted, upsert_permissions,
}

pub Has-map : {A B : Type 0} (f : A → B) {a : A} {xs : List A} → Has a xs → Has (f a) (map f xs)
Has-map f here = here
Has-map f (there m) = there (Has-map f m)

any-map :
    {A B : Type 0} (f : A → B) (q : B → Bool) (xs : List A)
    → any q (map f xs) ≡ any (λ x. q (f x)) xs
any-map f q [] = refl
any-map f q (x ∷ xs) = rw (any-map f q xs) refl

pub member-Has : {n : ℕ} {ns : List ℕ} → Has n ns → member ns n ≡ true
member-Has {n} m = Has-any (λ k. k == n) m (==_refl n)

-- The permission of a key, with an id among these.
abbrev pub Offered : {r : RedisServer} → World r → List ℕ → String → Type 0
Offered w ids key =
    (p : Permission) × Has p w.permissions × (p.key ≡ key) × (member ids p.id ≡ true)

module _ {r : RedisServer} (admin : ℕ) where
  -- The rows that an insertion of these items leaves.
  record IsInserted (items : List Item) (w : World r) (rows : List Permission) (u : World r)
      : Type 0 where
    added : u.permissions ≡ w.permissions ++ rows
    each : (i : Item) → Has i items → (p : Permission) × Has p rows × (p.key ≡ i.key)
    roles_same : u.roles ≡ w.roles

  abbrev with_row : Item → World r → World r
  with_row item w = record w {
    next_id = suc w.next_id;
    permissions = w.permissions ++ synced_permission admin item w.next_id ∷ [];
  }

  create-row :
      (item : Item) (w : World r) (row : Permission) (u : World r)
      → create permissions (synced_permission admin item) w ≡ (ok row, u)
      → (synced_permission admin item w.next_id ≡ row) × (with_row item w ≡ u)
  create-row item w row u e =
      elim (Bool-cases (any (λ p. item.name === p.name || item.key === p.key) w.permissions)) [
        | inl clash ↦ let no = sym (refused clash) ∙ e in absurd cc
        | inr free ↦ ok-inverse (sym (inserted free) ∙ e)
      ]
    where
      refused :
          any (λ p. item.name === p.name || item.key === p.key) w.permissions ≡ true
          → create permissions (synced_permission admin item) w
            ≡ (err (http 409 duplicate_record), record w { next_id = suc w.next_id })
      refused clash = ground (arith, clash)

      inserted :
          any (λ p. item.name === p.name || item.key === p.key) w.permissions ≡ false
          → create permissions (synced_permission admin item) w
            ≡ (ok (synced_permission admin item w.next_id), with_row item w)
      inserted free = ground (arith, free)

  create_many-rows :
      (items : List Item) (w : World r) (rows : List Permission) (u : World r)
      → create_many permissions (map (synced_permission admin) items) w ≡ (ok rows, u)
      → IsInserted items w rows u
  unfolding create_many
  create_many-rows [] w rows u e =
      let (no_rows, same) = ok-inverse e in
      record {
        added = rw (← no_rows, ← same) (sym (append-nil w.permissions));
        each = λ i m. elim m [ ];
        roles_same = rw (← same) refl;
      }
  create_many-rows (item ∷ items) w rows u e =
      let (row, more, t, first, second, same) =
        create_many-inverse permissions (synced_permission admin item)
          (map (synced_permission admin) items) w rows u e in
      let (is_row, is_t) = create-row item w row t first in
      let rest = create_many-rows items t more u second in
      record {
        added =
            rw (← same, rest.added, ← is_t)
              (append_assoc w.permissions (synced_permission admin item w.next_id) more
                ∙ ap (λ x. w.permissions ++ x ∷ more) is_row);
        each = λ i m. elim (Has-cons m) [
          | inl first_item ↦ (
            row,
            rw (← same) here,
            ap (λ x. x.key) (sym is_row) ∙ ap (λ x. x.key) (sym first_item),
          )
          | inr other ↦ let (p, m', k) = rest.each i other in (p, rw (← same) (there m'), k)
        ];
        roles_same = rest.roles_same ∙ ap (λ x. x.roles) (sym is_t);
      }

  abbrev existing : List Item → World r → List Permission
  existing asked w = select (λ p. member_text (map (λ i. i.key) asked) p.key) w.permissions

  abbrev fresh : List Item → World r → List Item
  fresh asked w = select (λ i. not (member_text (map (λ p. p.key) (existing asked w)) i.key)) asked

  offered :
      (asked : List Item) (w : World r) (rows : List Permission) (t : World r)
      → IsInserted (fresh asked w) w rows t
      → (i : Item) → Has i asked
      → Offered t (map (λ p. p.id) (existing asked w) ++ map (λ p. p.id) rows) i.key
  offered asked w rows t inserted i m =
      elim (Bool-cases (member_text (map (λ p. p.key) (existing asked w)) i.key)) [
        | inl known ↦
            let (p, m', k) =
              any-Has (λ p. p.key === i.key) (existing asked w)
                (rw (any-map (λ p. p.key) (λ s. s === i.key) (existing asked w)) at known) in
            (
              p,
              rw inserted.added (Has-left rows (select-Has _ w.permissions m')),
              (eq_iff p.key i.key).0 k,
              member-Has (Has-left _ (Has-map (λ p. p.id) m')),
            )
        | inr unknown ↦
            let (p, m', k) = inserted.each i (Has-select _ (rw unknown refl) m) in
            (
              p,
              rw inserted.added (Has-right w.permissions m'),
              k,
              member-Has (Has-right _ (Has-map (λ p. p.id) m')),
            )
      ]

  -- After a synchronisation of the rows each item has its permission, whose id is in the answer.
  pub upsert_permissions-Offered :
      (items : List Item) (w : World r) (up : Upserted) (u : World r)
      → upsert_permissions items admin w ≡ (ok up, u)
      → All (λ i. Offered u up.permission_ids i.key) items × (u.roles ≡ w.roles)
  unfolding upsert_permissions
  upsert_permissions-Offered [] w up u e = (tt, ap (λ x. x.roles) (sym (ok-inverse e).1))
  upsert_permissions-Offered (item ∷ items) w up u e =
      let old = map (λ p. p.id) (existing (item ∷ items) w) in
      let (rows, t, made, e1) =
        bind-inverse
          (create_many permissions (map (synced_permission admin) (fresh (item ∷ items) w)))
          (λ new.
            pure (record { permission_ids = old ++ map (λ p. p.id) new; created = length new }))
          up w u e in
      let inserted = create_many-rows (fresh (item ∷ items) w) w rows t made in
      let (is_up, is_u) = ok-inverse e1 in
      let ids : old ++ map (λ p. p.id) rows ≡ up.permission_ids =
        ap (λ x. x.permission_ids) is_up in
      (
        All-of_Has (λ i. Offered u up.permission_ids i.key) (item ∷ items)
            (λ i m. rw (← ids, ← is_u) (offered (item ∷ items) w rows t inserted i m)),
        rw (← is_u) inserted.roles_same,
      )
