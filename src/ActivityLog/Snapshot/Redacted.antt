-- ===== src/ActivityLog/Snapshot/Redacted.antt =====
-- What of a value cannot be seen in the log.
use nestjs_template.Common.{
  ℕ, String, ◌≡◌, refl, sym, ap, ◌∙◌, Bool, true, false, Option, none, some, List, [], ◌∷◌, member,
  Bool-cases, inl, inr, ◌&&◌, ◌||◌, ◌===◌, any, truthy, eq_iff, arith,
}
use nestjs_template.ActivityLog.Snapshot.{
  Value, Items, Fields, null, opaque, boolean, number, text, big, date, fault, array, instance_,
  back, nil, cons, end, field, Json, Jsons, Entries, j_null, j_text, j_object, j_cons, j_entry,
  is_redacted, is_sensitive_field, convert, convert_items, convert_fields, snapshot, wrapped_option,
}

-- The names whose values are secret: those that the class marks, and five names in any class.
abbrev pub is_secret : List String → String → Bool
is_secret marked key =
    truthy key
    && (key === "password"
        || key === "passwordHash"
        || key === "token"
        || key === "accessToken"
        || key === "refreshToken"
        || any (λ n. n === key) marked)

is_redacted-is_secret :
    (marked : List String) (key : String) → is_redacted marked key ≡ is_secret marked key
unfolding is_sensitive_field
is_redacted-is_secret marked key = ground (
  arith,
  eq_iff "password" key,
  eq_iff key "password",
  eq_iff "passwordHash" key,
  eq_iff key "passwordHash",
  eq_iff "token" key,
  eq_iff key "token",
  eq_iff "accessToken" key,
  eq_iff key "accessToken",
  eq_iff "refreshToken" key,
  eq_iff key "refreshToken",
)

-- The value with `null` at every secret name.
unfoldable mutual
  pub blank : Value → Value
  blank null = null
  blank opaque = opaque
  blank (boolean b) = boolean b
  blank (number n) = number n
  blank (text s) = text s
  blank (big s) = big s
  blank (date s) = date s
  blank (fault name message) = fault name message
  blank (array id items) = array id (blank_items items)
  blank (instance_ id marked fields) = instance_ id marked (blank_fields marked fields)
  blank (back id) = back id

  pub blank_items : Items → Items
  blank_items nil = nil
  blank_items (cons v vs) = cons (blank v) (blank_items vs)

  pub blank_fields : List String → Fields → Fields
  blank_fields marked end = end
  blank_fields marked (field key v fields) =
      field key (elim (is_secret marked key) [ true ↦ null | false ↦ blank v ])
        (blank_fields marked fields)

-- One field.
abbrev after_field : Bool → String → Option Json × List ℕ → Entries × List ℕ → Entries × List ℕ
after_field hidden key (j, _) (js, last) = elim hidden [
  | true ↦ (j_entry key (j_text "[REDACTED]") js, last)
  | false ↦ (elim j [ none ↦ js | some x ↦ j_entry key x js ], last)
]

module _ (seen : List ℕ) (marked : List String) (key : String) (v : Value) (fields : Fields) where
  convert_fields-hidden :
      is_redacted marked key ≡ true
      → convert_fields seen marked (field key v fields)
        ≡ after_field true key (none, seen) (convert_fields seen marked fields)
  unfolding convert
  convert_fields-hidden h =
      ap {B = Entries × List ℕ}
        (λ b. elim b [
          | true ↦
              let (js, last) = convert_fields seen marked fields in
              (j_entry key (j_text "[REDACTED]") js, last)
          | false ↦
              let (j, after) = convert seen v in
              let (js, last) = convert_fields after marked fields in
              (elim j [ none ↦ js | some x ↦ j_entry key x js ], last)
        ])
        h

  convert_fields-shown :
      is_redacted marked key ≡ false
      → convert_fields seen marked (field key v fields)
        ≡ after_field false key (convert seen v) (convert_fields (convert seen v).1 marked fields)
  unfolding convert
  convert_fields-shown h =
      ap {B = Entries × List ℕ}
        (λ b. elim b [
          | true ↦
              let (js, last) = convert_fields seen marked fields in
              (j_entry key (j_text "[REDACTED]") js, last)
          | false ↦
              let (j, after) = convert seen v in
              let (js, last) = convert_fields after marked fields in
              (elim j [ none ↦ js | some x ↦ j_entry key x js ], last)
        ])
        h

abbrev after_item : Option Json × List ℕ → Jsons × List ℕ → Jsons × List ℕ
after_item (j, _) (js, last) = (j_cons (elim j [ none ↦ j_null | some x ↦ x ]) js, last)

blank_fields-hidden :
    (marked : List String) (key : String) (v : Value) (fields : Fields)
    → is_secret marked key ≡ true
    → blank_fields marked (field key v fields) ≡ field key null (blank_fields marked fields)
unfolding blank
blank_fields-hidden marked key v fields h =
    ap (λ b. field key (elim b [ true ↦ null | false ↦ blank v ]) (blank_fields marked fields)) h

blank_fields-shown :
    (marked : List String) (key : String) (v : Value) (fields : Fields)
    → is_secret marked key ≡ false
    → blank_fields marked (field key v fields) ≡ field key (blank v) (blank_fields marked fields)
unfolding blank
blank_fields-shown marked key v fields h =
    ap (λ b. field key (elim b [ true ↦ null | false ↦ blank v ]) (blank_fields marked fields)) h

abbrev as_array : Jsons × List ℕ → Option Json × List ℕ
as_array (js, after) = (some (Json.j_array js), after)

abbrev as_object : Entries × List ℕ → Option Json × List ℕ
as_object (js, after) = (some (j_object js), after)

mutual
  unfolding convert blank

  convert-blank : (seen : List ℕ) (v : Value) → convert seen (blank v) ≡ convert seen v
  convert-blank seen null = refl
  convert-blank seen opaque = refl
  convert-blank seen (boolean b) = refl
  convert-blank seen (number n) = refl
  convert-blank seen (text s) = refl
  convert-blank seen (big s) = refl
  convert-blank seen (date s) = refl
  convert-blank seen (fault name message) = refl
  convert-blank seen (array id items) =
      ap {B = Option Json × List ℕ}
        (λ x. elim (member seen id) [
          | true ↦ (some (j_text "[Circular]"), seen)
          | false ↦ as_array x
        ])
        (convert_items-blank (id ∷ seen) items)
  convert-blank seen (instance_ id marked fields) =
      ap {B = Option Json × List ℕ}
        (λ x. elim (member seen id) [
          | true ↦ (some (j_text "[Circular]"), seen)
          | false ↦ as_object x
        ])
        (convert_fields-blank (id ∷ seen) marked fields)
  convert-blank seen (back id) = refl

  convert_items-blank :
      (seen : List ℕ) (vs : Items) → convert_items seen (blank_items vs) ≡ convert_items seen vs
  convert_items-blank seen nil = refl
  convert_items-blank seen (cons v vs) =
      ap (λ x. after_item x (convert_items x.1 (blank_items vs))) (convert-blank seen v)
      ∙ ap (after_item (convert seen v)) (convert_items-blank (convert seen v).1 vs)

  convert_fields-blank :
      (seen : List ℕ) (marked : List String) (fields : Fields)
      → convert_fields seen marked (blank_fields marked fields) ≡ convert_fields seen marked fields
  convert_fields-blank seen marked end = refl
  convert_fields-blank seen marked (field key v fields) = elim (Bool-cases (is_secret marked key)) [
    | inl h ↦
        ap (convert_fields seen marked) (blank_fields-hidden marked key v fields h)
        ∙ convert_fields-hidden seen marked key null (blank_fields marked fields)
            (is_redacted-is_secret marked key ∙ h)
        ∙ ap (after_field true key (none, seen)) (convert_fields-blank seen marked fields)
        ∙ sym
            (convert_fields-hidden seen marked key v fields (is_redacted-is_secret marked key ∙ h))
    | inr h ↦
        ap (convert_fields seen marked) (blank_fields-shown marked key v fields h)
        ∙ convert_fields-shown seen marked key (blank v) (blank_fields marked fields)
            (is_redacted-is_secret marked key ∙ h)
        ∙ ap (λ x. after_field false key x (convert_fields x.1 marked (blank_fields marked fields)))
            (convert-blank seen v)
        ∙ ap (after_field false key (convert seen v))
            (convert_fields-blank (convert seen v).1 marked fields)
        ∙ sym (convert_fields-shown seen marked key v fields (is_redacted-is_secret marked key ∙ h))
  ]

-- What stands at a secret name, at whatever depth, has no influence on what is logged.
pub snapshot-blank : (v : Value) → snapshot (blank v) ≡ snapshot v
unfolding snapshot blank
snapshot-blank null = refl
snapshot-blank opaque = refl
snapshot-blank (boolean b) = refl
snapshot-blank (number n) = refl
snapshot-blank (text s) = refl
snapshot-blank (big s) = refl
snapshot-blank (date s) = refl
snapshot-blank (fault name message) = refl
snapshot-blank (array id items) = ap (λ x. wrapped_option x.0) (convert-blank [] (array id items))
snapshot-blank (instance_ id marked fields) =
    ap (λ x. wrapped_option x.0) (convert-blank [] (instance_ id marked fields))
snapshot-blank (back id) = refl
