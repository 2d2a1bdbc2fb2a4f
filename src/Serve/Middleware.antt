-- ===== src/Serve/Middleware.antt =====
-- `EnterpriseMiddleware` of serve/autotree_serve/enterprise.py and the helpers below it. Parameters are
-- the JSON library, the decoding of tokens and the application. While the application runs, other
-- requests use the quota: the application returns the quota as it is then.
pub mod Guards
pub mod Charges
use autotree.Base.{
  ℕ, zero, suc, ◌+◌, ◌-◌, ◌*◌, ◌/◌, ◌%◌, Bool, true, false, not, ◌&&◌, ◌||◌, Option, none, some,
  List, [], ◌∷◌, ◌++◌, map, leb, ◌==◌, if◌then◌else◌, length, Text, Table, find, store, same_text,
  ℤ, pos, at_least_zero, positive,
}
use autotree.Serve.Json.{
  Json, null, string, object, integer, Members, no_members, member, member_of, as_string,
  as_integer, as_object,
}
use autotree.Serve.Config.{EnterpriseConfig, OidcConfig, is_empty, auth_enabled}
use autotree.Serve.Quota.{
  TokenQuota, Reservation, QuotaExceeded, Answer, unlimited, granted, exceeded, reserve, settle,
}
use autotree.Serve.Auth.{
  AuthenticationError, invalid_api_key, invalid_bearer_token, no_tenant_claim, credentials_missing,
  Verdict, tenant_is, rejected, crashed, Decoded, lower, authenticate,
}
use autotree.Serve.Payloads.{
  Received, request, disconnect, read_body, is_completion, requested_tokens, header_dict,
  json_object, decimal,
}
use autotree.Serve.Words

pub data Message : Type 0 where
  response_start : (status : ℕ) (headers : Table Text) → Message
  response_body : Text → Message

pub record Request : Type 0 where
  pub is_http : Bool
  pub path : Text
  pub headers : List (Text × Text)
  pub received : List Received

-- what the application sees of the scope, and the body that is replayed to it
pub record Scope : Type 0 where
  pub path : Text
  pub tenant : Text
  pub body : Text

-- what the application did: its messages, the tokens it wrote into the scope, whether it raised
pub record Ran : Type 0 where
  pub messages : List Message
  pub audit_tokens : ℤ
  pub raises : Bool
  pub quota : TokenQuota

pub record AuditRecord : Type 0 where
  pub timestamp : ℕ
  pub tenant : Text
  pub route : Text
  pub model : Option Text
  pub tokens : ℕ
  pub status : ℕ

pub record Server : Type 0 where
  pub config : EnterpriseConfig
  pub quota : TokenQuota
  pub quota_rejections : ℕ
  pub audit : List AuditRecord

-- `waiting` where the client has not sent the end of the body
pub data Outcome : Type 0 where
  waiting : Outcome
  ended : (sent : List Message) (raises : Bool) (server : Server) → Outcome

abbrev starts_with : Text → Text → Bool
starts_with [] text = true
starts_with (p ∷ ps) [] = false
starts_with (p ∷ ps) (c ∷ cs) = p == c && starts_with ps cs

abbrev pub is_protected : Request → Bool
is_protected r = r.is_http && starts_with Words.v1_prefix r.path

abbrev text_of : AuthenticationError → Text
text_of invalid_api_key = Words.invalid_api_key_text
text_of invalid_bearer_token = Words.invalid_bearer_text
text_of no_tenant_claim = Words.no_claim_text
text_of credentials_missing = Words.credentials_text

abbrev optional : Option Text → Json
optional none = null
optional (some t) = string t

abbrev status_after : ℕ → List Message → ℕ
status_after status [] = status
status_after status (response_start s headers ∷ rest) = status_after s rest
status_after status (response_body b ∷ rest) = status_after status rest

module _ (second : ℕ) (parse : Text → Option Json) (dumps : Json → Text) where
  -- `_send_error`
  unfoldable pub send_error : ℕ → Text → Text → Text → Option Text → Table Text → List Message
  send_error status message error_type code param headers =
      let body = dumps (
        object (
          member Words.error_key
            (object (
              member Words.message_key (string message) (
                member Words.type_key (string error_type) (
                  member Words.param_key (optional param)
                    (member Words.code_key (string code) no_members)))))
            no_members)) in
      response_start status (
        (Words.content_type, Words.json_type)
        ∷ ((Words.content_length, decimal (length body)) ∷ headers))
      ∷ (response_body body ∷ [])

  abbrev unauthorized : AuthenticationError → List Message
  unauthorized e =
      send_error 401 (text_of e) Words.authentication_error Words.invalid_authentication none
        ((Words.www_authenticate, Words.bearer_value) ∷ [])

  abbrev too_many : QuotaExceeded → List Message
  too_many e =
      send_error 429
        (Words.quota_text
          ++ decimal e.remaining
          ++ Words.of_text
          ++ decimal e.limit
          ++ Words.remain_text)
        Words.rate_limit_error Words.quota_exceeded_code (some Words.max_tokens_key)
        ((Words.retry_after_header, decimal e.retry_after) ∷ [])

  module _ (r : Request) (later : ℕ) where
    -- `AuditLogger.write`, where a log is configured
    abbrev write_audit : Text → Option Text → ℤ → ℕ → Server → Server
    write_audit tenant model tokens status s = elim s.config.audit_log [
      | none ↦ s
      | some log ↦ record s {
        audit =
            s.audit
            ++ record {
              timestamp = later;
              tenant = tenant;
              route = r.path;
              model = model;
              tokens = at_least_zero tokens;
              status = status;
            }
              ∷ [];
      }
    ]

    abbrev give_back : Option Reservation → ℤ → Server → Server
    give_back none tokens s = s
    give_back (some reservation) tokens s = record s { quota = settle reservation tokens s.quota }

    -- the `finally` block
    abbrev pub leave : Text → Option Text → Option Reservation → ℤ → ℕ → Server → Server
    leave tenant model reservation tokens status s =
        write_audit tenant model tokens status (give_back reservation tokens s)

    module _ (app : Scope → TokenQuota → Ran) where
      abbrev run_app : Text → Option Text → Text → Option Reservation → Server → Outcome
      run_app tenant model body reservation s =
          let ran = app (record { path = r.path; tenant = tenant; body = body }) s.quota in
          ended ran.messages ran.raises (
            leave tenant model reservation ran.audit_tokens (status_after 500 ran.messages)
              (record s { quota = ran.quota }))

      abbrev after_reserve : Text → Option Text → Text → Server → Answer → Outcome
      after_reserve tenant model body s unlimited = run_app tenant model body none s
      after_reserve tenant model body s (granted reservation) =
          run_app tenant model body (some reservation) s
      after_reserve tenant model body s (exceeded e) = ended (too_many e) false (
          leave tenant model none (pos 0) 429
            (record s { quota_rejections = suc s.quota_rejections }))

      abbrev after_body : Text → ℕ → Server → Option Text → Outcome
      after_body tenant now s none = waiting
      after_body tenant now s (some body) =
          let payload = json_object parse body in
          let (answer, quota) =
            reserve second tenant (requested_tokens r.path payload) now s.quota in
          after_reserve tenant (as_string (member_of Words.model_key payload)) body
            (record s { quota = quota }) answer

      abbrev after_auth : ℕ → Server → Verdict → Outcome
      after_auth now s (tenant_is tenant) = after_body tenant now s (read_body r.received)
      after_auth now s (rejected e) =
          ended (unauthorized e) false (leave Words.anonymous none none (pos 0) 401 s)
      after_auth now s crashed = ended [] true (leave Words.anonymous none none (pos 0) 500 s)

      -- an open path goes straight to the application
      abbrev unprotected : Server → Outcome
      unprotected s =
          let ran = app (record { path = r.path; tenant = []; body = [] }) s.quota in
          ended ran.messages ran.raises (record s { quota = ran.quota })

  abbrev pub identify : (OidcConfig → Text → Decoded) → Server → Request → Verdict
  identify decode_token s r =
      if auth_enabled s.config
      then authenticate decode_token s.config (header_dict [] r.headers)
      else tenant_is Words.anonymous

  unfoldable pub call :
      (OidcConfig → Text → Decoded)
      → (Scope → TokenQuota → Ran)
      → Request
      → ℕ
      → ℕ
      → Server
      → Outcome
  call decode_token app r now later s =
      if not (is_protected r)
      then unprotected r later app s
      else after_auth r later app now s (identify decode_token s r)
