-- ===== src/Core/Client/Settled.antt =====
-- src/core/client.ts, settleResponse: which answers are values, and what the errors are.
use pve_agent.Base.{
  ltb, ◌==◌, Bool-cases, length, Text, trim, ok, throw, ℕ, ◌≤◌, ◌≡◌, refl, ◌↔◌, ◌⊎◌, inl, inr, Bool,
  true, false, ◌&&◌, ◌||◌, Option, arith,
}
use pve_agent.Core.Values.{JsValue}
use pve_agent.Core.Errors.{
  AuthTier, PveError, PveErrorKind, kind_of, auth_kind, permission_kind, not_found_kind,
}
use pve_agent.Core.Auth.{is_ok_status}
use pve_agent.Core.Client.Envelope.{
  EnvelopeResult, is_envelope, read_result, detail_of, names_missing_object, error_of,
  settle_response,
}

-- An answer that is worth a value: a status of success, and an object or nothing but space.
abbrev pub IsValue : (Text → Option JsValue) → ℕ → Text → Type 0
IsValue parse_json status body =
    (200 ≤ status)
    × (status ≤ 299)
    × ((is_envelope (parse_json body) ≡ true) ⊎ (length (trim body) ≡ 0))

-- The statuses for a missing object; a failure of the server counts when its detail says so.
abbrev pub is_missing : ℕ → Text → Bool
is_missing status detail =
    status == 404 || (status == 501 || (status == 500 && names_missing_object detail))

abbrev pub KindTable : PveErrorKind → ℕ → Text → Type 0
KindTable kind status detail =
    ((kind ≡ auth_kind) ↔ (status ≡ 401))
    × ((kind ≡ permission_kind) ↔ (status ≡ 403))
    × ((kind ≡ not_found_kind) ↔ (is_missing status detail ≡ true))

error_of-KindTable :
    (method path : Text) (tier : AuthTier) (status : ℕ) (detail : Text)
    → KindTable (kind_of (error_of method path tier status detail)) status detail
unfolding error_of kind_of
error_of-KindTable method path tier status detail = elim (Bool-cases (status == 401)) [
  | inl is_401 ↦ rw is_401 (
    (λ _. ground (arith, is_401), λ _. refl),
    (λ h. absurd (ground (arith, h)), λ h. absurd (ground (arith, is_401, h))),
    (λ h. absurd (ground (arith, h)), λ h. absurd (ground (arith, is_401, h))),
  )
  | inr not_401 ↦ elim (Bool-cases (status == 403)) [
    | inl is_403 ↦
        rw (not_401, is_403)
          (
            (λ h. absurd (ground (arith, h)), λ h. absurd (ground (arith, not_401, h))),
            (λ _. ground (arith, is_403), λ _. refl),
            (λ h. absurd (ground (arith, h)), λ h. absurd (ground (arith, is_403, h))),
          )
    | inr not_403 ↦ elim (Bool-cases (is_missing status detail)) [
      | inl missing ↦
          rw (not_401, not_403, missing)
            (
              (λ h. absurd (ground (arith, h)), λ h. absurd (ground (arith, not_401, h))),
              (λ h. absurd (ground (arith, h)), λ h. absurd (ground (arith, not_403, h))),
              (λ _. refl, λ _. refl),
            )
      | inr other ↦
          rw (not_401, not_403, other)
            (
              (λ h. absurd (ground (arith, h)), λ h. absurd (ground (arith, not_401, h))),
              (λ h. absurd (ground (arith, h)), λ h. absurd (ground (arith, not_403, h))),
              (λ h. absurd (ground (arith, h)), λ h. absurd (ground (arith, h))),
            )
    ]
  ]
]

module _ (parse_json : Text → Option JsValue) where
  -- A status of success, an object, and something in the body.
  result_lem :
      (method path : Text) (tier : AuthTier) (status : ℕ) (body : Text) (result : EnvelopeResult)
      → settle_response parse_json method path tier (status, body) ≡ ok result
      → IsValue parse_json status body
  unfolding settle_response
  result_lem method path tier status body result e = elim (Bool-cases (is_ok_status status)) [
    | inr failed ↦ absurd (ground (arith, failed, e))
    | inl good ↦ elim (Bool-cases (is_envelope (parse_json body))) [
      | inl enveloped ↦ (ground (arith, good), ground (arith, good), inl enveloped)
      | inr other ↦ elim (Bool-cases (ltb 0 (length (trim body)))) [
        | inl text ↦ absurd (ground (arith, good, other, text, e))
        | inr blank ↦ (ground (arith, good), ground (arith, good), inr (ground (arith, blank)))
      ]
    ]
  ]

  settle_response-result :
      (method path : Text) (tier : AuthTier) (status : ℕ) (body : Text)
      → IsValue parse_json status body
      → settle_response parse_json method path tier (status, body)
        ≡ ok (read_result (parse_json body))
  unfolding settle_response
  settle_response-result method path tier status body (low, high, inl enveloped) =
      let good : is_ok_status status ≡ true = ground (arith, low, high) in simp (good, enveloped)
  settle_response-result method path tier status body (low, high, inr blank) =
      let good : is_ok_status status ≡ true = ground (arith, low, high) in
      let none_left : ltb 0 (length (trim body)) ≡ false = ground (arith, blank) in
      elim (Bool-cases (is_envelope (parse_json body))) [
        | inl enveloped ↦ simp (good, enveloped)
        | inr other ↦ simp (good, other, none_left)
      ]

  -- An answer is a value exactly when its status is one of success and its body is an object or blank.
  pub settle_response-IsValue :
      (method path : Text) (tier : AuthTier) (status : ℕ) (body : Text)
      → ((result : EnvelopeResult) × (settle_response parse_json method path tier (status, body)
            ≡ ok result))
        ↔ IsValue parse_json status body
  settle_response-IsValue method path tier status body = (
    λ (result, e). result_lem method path tier status body result e,
    λ h. (read_result (parse_json body), settle_response-result method path tier status body h),
  )

  -- A status that is none of success is an error, whose kind is of a refused login exactly for 401, of a
  -- missing permission exactly for 403, and of a missing object exactly for 404, 501, or a 500 whose
  -- detail says so.
  pub settle_response-kind :
      (method path : Text) (tier : AuthTier) (status : ℕ) (body : Text)
      → is_ok_status status ≡ false
      → (error : PveError) × (settle_response parse_json method path tier (status, body)
          ≡ throw error)
        × KindTable (kind_of error) status (detail_of (parse_json body) body)
  unfolding settle_response
  settle_response-kind method path tier status body failed = (
    error_of method path tier status (detail_of (parse_json body) body),
    simp failed,
    error_of-KindTable method path tier status (detail_of (parse_json body) body),
  )
