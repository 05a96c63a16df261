-- ===== src/GithubApp.antt =====
-- The webhook of internal/identity/githubapp/webhook.go. The store of installations is an interface
-- of the package, so that its state and its operations are parameters, as are the HMAC and the parsing
-- of the body.
pub mod Webhook
pub mod Client
mod Examples
use foreman.Prelude.{
  ℕ, String, Bool, true, false, ◌||◌, ◌&&◌, Option, none, some, Result, concat, str_eq, ◌==◌,
  if◌then◌else◌,
}

-- `InstallationState`.
pub data InstallationState : Type 0 where
  active suspended deleted : InstallationState

-- `Installation`, the fields that the webhook sets.
pub record Installation : Type 0 where
  pub platform : String
  pub platform_install_id : ℕ
  pub account_login : String
  pub account_type : String
  pub account_id : ℕ
  pub state : InstallationState
  pub created_at : ℕ
  pub updated_at : ℕ

-- The fields of the body that the handler reads.
pub record InstallationEvent : Type 0 where
  pub action : String
  pub id : ℕ
  pub account_id : ℕ
  pub login : String
  pub type : String

-- What the handler reads of a request; the body is `none` where it cannot be read.
pub record Request : Type 0 where
  pub method : String
  pub body : Option String
  pub signature : String
  pub event_type : String

-- The parameters: the store, the hexadecimal HMAC of a secret and a body, and `json.Unmarshal`.
pub record Outside (S : Type 0) : Type 0 where
  pub create : Installation → S → Result (Unit {0}) × S
  pub update_state : ℕ → InstallationState → S → Result (Unit {0}) × S
  pub hmac : String → String → String
  pub parse : String → Option InstallationEvent

module _ {S : Type 0} (out : Outside S) where
  unfoldable pub validate_signature : String → String → String → Bool
  validate_signature secret sig_header body =
      if str_eq secret "" || str_eq sig_header ""
      then true
      else str_eq (concat "sha256=" (out.hmac secret body)) sig_header

  unfoldable pub handle_installation_created : ℕ → InstallationEvent → S → S
  handle_installation_created now event s =
      (out.create
        (record {
          platform = "github";
          platform_install_id = event.id;
          account_login = event.login;
          account_type = event.type;
          account_id = event.account_id;
          state = active;
          created_at = now;
          updated_at = now;
        })
        s).1

  unfoldable pub handle_installation_deleted : InstallationEvent → S → S
  handle_installation_deleted event s = (out.update_state event.id deleted s).1

  unfoldable pub handle_installation_suspended : InstallationEvent → S → S
  handle_installation_suspended event s = (out.update_state event.id suspended s).1

  unfoldable pub handle_installation_unsuspended : InstallationEvent → S → S
  handle_installation_unsuspended event s = (out.update_state event.id active s).1

  -- The `switch` on the type of the event and its action.
  unfoldable pub dispatch : ℕ → String → InstallationEvent → S → S
  unfolding handle_installation_created handle_installation_deleted handle_installation_suspended
      handle_installation_unsuspended
  dispatch now event_type event s =
      if str_eq event_type "installation" && str_eq event.action "created"
      then handle_installation_created now event s
      else if str_eq event_type "installation" && str_eq event.action "deleted"
      then handle_installation_deleted event s
      else if str_eq event_type "installation" && str_eq event.action "suspend"
      then handle_installation_suspended event s
      else if str_eq event_type "installation" && str_eq event.action "unsuspend"
      then handle_installation_unsuspended event s
      else s

  -- Once the body has been read: the status of the response, and the store.
  unfoldable pub handle_body : String → ℕ → Request → String → S → ℕ × S
  unfolding validate_signature dispatch
  handle_body secret now r body s =
      if validate_signature secret r.signature body
      then (elim (out.parse body) [
        | none ↦ (200, s)
        | some event ↦ (200, dispatch now r.event_type event s)
      ])
      else (401, s)

  unfoldable pub serve_http : String → ℕ → Request → S → ℕ × S
  unfolding handle_body
  serve_http secret now r s =
      if str_eq r.method "POST"
      then (elim r.body [ none ↦ (200, s) | some body ↦ handle_body secret now r body s ])
      else (405, s)
