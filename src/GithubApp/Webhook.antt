-- ===== src/GithubApp/Webhook.antt =====
-- Which requests of internal/identity/githubapp/webhook.go reach the store of installations.
use foreman.Prelude.{
  ℕ, String, ◌≡◌, ◌≢◌, ◌⊎◌, refl, true, some, concat, arith, str_eq, eq_iff, inl, inr, Bool-cases,
  Option-cases,
}
use foreman.GithubApp.{
  Outside, Request, InstallationEvent, serve_http, handle_body, validate_signature, dispatch,
}

module _ {S : Type 0} (out : Outside S) where
  -- A request that says it is signed is signed with the secret.
  abbrev pub IsSigned : String → String → String → Type 0
  IsSigned secret signature body = concat "sha256=" (out.hmac secret body) ≡ signature

  validate_signature_lem :
      (secret signature body : String)
      → secret ≢ ""
      → validate_signature out secret signature body ≡ true
      → ◌≡◌ {A = String} signature "" ⊎ IsSigned secret signature body
  unfolding validate_signature
  validate_signature_lem secret signature body ne h = elim (Bool-cases (str_eq signature "")) [
    | inl e ↦ inl ((eq_iff signature "").0 e)
    | inr e ↦ inr (
        ground
          (arith, eq_iff secret "", eq_iff (concat "sha256=" (out.hmac secret body)) signature))
  ]

  -- With a secret configured, a request leaves the store alone, or its event is dispatched to it
  -- once and answered with 200; then it is a POST whose body parses, and the request is signed or
  -- has no signature at all.
  pub serve_http_store :
      (secret : String) (now : ℕ) (r : Request) (s : S)
      → secret ≢ ""
      → ((serve_http out secret now r s).1 ≡ s)
        ⊎ ((body : String) × (event : InstallationEvent) × (r.method ≡ "POST")
            × (r.body ≡ some body)
            × (out.parse body ≡ some event)
            × (◌≡◌ {A = String} r.signature "" ⊎ IsSigned secret r.signature body)
            × (serve_http out secret now r s ≡ (200, dispatch out now r.event_type event s)))
  unfolding serve_http handle_body
  serve_http_store secret now r s ne = elim (Bool-cases (str_eq r.method "POST")) [
    | inr e ↦ inl (rw (e, serve_http) refl)
    | inl e ↦ elim (Option-cases r.body) [
      | inl f ↦ inl (rw (e, f, serve_http) refl)
      | inr (body, f) ↦ elim (Bool-cases (validate_signature out secret r.signature body)) [
        | inr g ↦ inl (rw (e, f, g, serve_http) refl)
        | inl g ↦ elim (Option-cases (out.parse body)) [
          | inl k ↦ inl (rw (e, f, g, k, serve_http) refl)
          | inr (event, k) ↦ inr (
            body,
            event,
            (eq_iff r.method "POST").0 e,
            f,
            k,
            validate_signature_lem secret r.signature body ne g,
            rw (e, f, g, k, serve_http) refl,
          )
        ]
      ]
    ]
  ]

  -- With a secret configured, a POST whose body can be read and whose signature is there and is not
  -- that of its body is refused with 401, and the store stays.
  serve_http_refused :
      (secret body : String) (now : ℕ) (r : Request) (s : S)
      → secret ≢ ""
      → r.method ≡ "POST"
      → r.body ≡ some body
      → r.signature ≢ ""
      → ¬ IsSigned secret r.signature body
      → serve_http out secret now r s ≡ (401, s)
  unfolding serve_http handle_body validate_signature
  serve_http_refused secret body now r s ne post has signed wrong = ground (
    arith,
    eq_iff r.method "POST",
    eq_iff secret "",
    eq_iff r.signature "",
    eq_iff (concat "sha256=" (out.hmac secret body)) r.signature,
  )

  -- A request without a signature is handled as if no secret were configured.
  serve_http_unsigned :
      (secret : String) (now : ℕ) (r : Request) (s : S)
      → r.signature ≡ ""
      → serve_http out secret now r s ≡ serve_http out "" now r s
  unfolding serve_http handle_body validate_signature
  serve_http_unsigned secret now r s none_sent = ground (arith, eq_iff r.signature "")
