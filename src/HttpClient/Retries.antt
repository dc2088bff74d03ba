-- ===== src/HttpClient/Retries.antt =====
-- Which answer a request gets after its retries.
use nestjs_template.Common.{
  ℕ, zero, suc, String, ◌<◌, ◌≤◌, ◌≡◌, refl, ◌⊎◌, inl, inr, ◌↔◌, true, false, not, ◌&&◌, none, some,
  truthy, if◌then◌else◌, arith,
}
use nestjs_template.HttpClient.{
  HttpClient, Thrown, axios, plain, stray, Code, code_of, no_response, unresolved, is_code,
  HttpResponse, AxiosResponse, Attempt, answered, failed,
}

lt_or_eq : (m n : ℕ) → m < suc n → (m < n) ⊎ (m ≡ n)
lt_or_eq m n l = ground (arith, l)

module _ {A : Type 0} (request : ℕ → Attempt A) where
  pub record FailsBefore (n : ℕ) : Type 0 where
    pub fails : (m : ℕ) → m < n → (e : Thrown) × (request m ≡ failed e)

  -- The first answer among the attempts up to the number.
  pub record IsFirst (count : ℕ) (r : AxiosResponse A) : Type 0 where
    pub attempt : ℕ
    pub within : attempt ≤ count
    pub before : FailsBefore attempt
    pub answer : request attempt ≡ answered r

  Attempt-cases :
      (a : Attempt A) → ((r : AxiosResponse A) × (a ≡ answered r)) ⊎ ((e : Thrown) × (a ≡ failed e))
  Attempt-cases (answered r) = inl (r, refl)
  Attempt-cases (failed e) = inr (e, refl)

  FirstOrFails : ℕ → Type 0
  FirstOrFails count = ((r : AxiosResponse A) × IsFirst count r) ⊎ FailsBefore (suc count)

  first_or_fails-zero : FirstOrFails zero
  unfolding FirstOrFails
  first_or_fails-zero = elim (Attempt-cases (request 0)) [
    | inl (r, h) ↦ inl (
      r,
      record {
        attempt = 0;
        within = omega arith;
        before = record { fails = λ m l. absurd (omega (arith, l)) };
        answer = h;
      },
    )
    | inr (e, h) ↦
        inr (record { fails = λ m l. let m≡0 : m ≡ 0 = omega (arith, l) in rw m≡0 (e, h) })
  ]

  fails_next : (n : ℕ) → FailsBefore n → (e : Thrown) → request n ≡ failed e → FailsBefore (suc n)
  fails_next n fb e h = record { fails = go }
    where
      go : (m : ℕ) → m < suc n → (x : Thrown) × (request m ≡ failed x)
      go m l = elim (lt_or_eq m n l) [ inl less ↦ fb.fails m less | inr same ↦ rw same (e, h) ]

  first_or_fails : (count : ℕ) → FirstOrFails count
  unfolding FirstOrFails
  first_or_fails zero = first_or_fails-zero
  first_or_fails (suc n) = elim (first_or_fails n) [
    | inl (r, f) ↦ inl (
      r,
      record {
        attempt = f.attempt;
        within = omega (arith, f.within);
        before = f.before;
        answer = f.answer;
      },
    )
    | inr fb ↦ elim (Attempt-cases (request (suc n))) [
      | inl (r, h) ↦
          inl (r, record { attempt = suc n; within = omega arith; before = fb; answer = h })
      | inr (e, h) ↦ inr (fails_next (suc n) fb e h)
    ]
  ]

  -- Every attempt up to the number failed; the last one with `e`.
  pub record Exhausts (count : ℕ) (e : Thrown) : Type 0 where
    pub before : FailsBefore count
    pub last : request count ≡ failed e

-- The caller gets the body, the status and the headers of the answer; it is a success from 200 to 299.
pub record IsAnswered {A : Type 0} (r : AxiosResponse A) (h : HttpResponse A) : Type 0 where
  pub body : h.body ≡ some r.body
  pub status : h.status ≡ code_of r.status
  pub success : (h.success ≡ true) ↔ ((200 ≤ r.status) × (r.status < 300))
  pub message : h.message ≡ (if truthy r.status_text then r.status_text else "OK")
  pub error : h.error ≡ none
  pub headers : h.headers ≡ some r.headers

-- The error that a caller is told of.
abbrev pub told : Thrown → String
told (axios e) = e.message
told (plain s) = if truthy s then s else "Unknown error"
told (stray s) = if truthy s then s else "Unknown error"

-- The status that a caller is told: of the response, if there was one, and otherwise 0, or -1 for a
-- request that was never made as the name of its host is not known.
abbrev pub told_status : Thrown → Code
told_status (axios e) = elim e.response [
  | some (code, _) ↦ code_of code
  | none ↦ if not e.request && is_code e.code "ENOTFOUND" then unresolved else no_response
]
told_status (plain _) = no_response
told_status (stray _) = no_response

-- The caller gets no body, a failure and the error.
pub record IsReported {A : Type 0} (e : Thrown) (h : HttpResponse A) : Type 0 where
  pub body : h.body ≡ none
  pub status : h.status ≡ told_status e
  pub success : h.success ≡ false
  pub error : h.error ≡ some (told e)
  pub headers : h.headers ≡ none
