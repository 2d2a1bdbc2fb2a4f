-- ===== src/Serve/Middleware/Guards.antt =====
-- Who reaches the application, and what the audit log says of every request.
use autotree.Base.{
  ℕ, suc, ◌≡◌, ◌⊎◌, inl, inr, refl, true, Option, none, some, [], ◌∷◌, ◌++◌, Text, ℤ, pos,
}
use autotree.Serve.Json.{Json, member_of, as_string}
use autotree.Serve.Config.{OidcConfig}
use autotree.Serve.Quota.{TokenQuota, Reservation, Answer, unlimited, granted, exceeded, reserve}
use autotree.Serve.Quota.Retry.{refused}
use autotree.Serve.Auth.{Verdict, tenant_is, rejected, crashed, Decoded}
use autotree.Serve.Words
use autotree.Serve.Payloads.{read_body, requested_tokens, json_object}
use autotree.Serve.Middleware.{
  Request, Scope, Ran, AuditRecord, Server, Outcome, waiting, ended, is_protected, status_after,
  send_error, leave, after_reserve, after_body, after_auth, identify, call,
}

-- one more record in the log, with the status that the client was sent
abbrev pub IsAudited : Request → Server → Outcome → Type 0
IsAudited r s waiting = Unit {0}
IsAudited r s (ended sent raises t) =
    (entry : AuditRecord) × (t.audit ≡ s.audit ++ entry ∷ [])
    × (entry.status ≡ status_after 500 sent)
    × (entry.route ≡ r.path)

module _ (second : ℕ) (parse : Text → Option Json) (dumps : Json → Text)
    (decode_token : OidcConfig → Text → Decoded) where
  -- the request is from a known tenant, its body has come, and the quota has not refused it
  pub record IsAdmitted (r : Request) (now : ℕ) (s : Server) : Type 0 where
    pub tenant : Text
    pub body : Text
    pub known : identify second parse dumps decode_token s r ≡ tenant_is tenant
    pub complete : read_body r.received ≡ some body
    pub allowed :
        refused
          ((reserve second tenant (requested_tokens r.path (json_object parse body)) now s.quota).0)
        ≡ none

  module _ (r : Request) (now later : ℕ) (s : Server) (app other : Scope → TokenQuota → Ran) where
    same_reserve :
        (tenant : Text) (model : Option Text) (body : Text) (t : Server) (a : Answer)
        → (refused a ≡ none)
          ⊎ (after_reserve second parse dumps r later app tenant model body t a
              ≡ after_reserve second parse dumps r later other tenant model body t a)
    same_reserve tenant model body t unlimited = inl refl
    same_reserve tenant model body t (granted reservation) = inl refl
    same_reserve tenant model body t (exceeded e) = inr refl

    same_body :
        (tenant : Text) (o : Option Text)
        → read_body r.received ≡ o
        → identify second parse dumps decode_token s r ≡ tenant_is tenant
        → IsAdmitted r now s
          ⊎ (after_body second parse dumps r later app tenant now s o
              ≡ after_body second parse dumps r later other tenant now s o)
    same_body tenant none e k = inr refl
    same_body tenant (some body) e k =
        let payload = json_object parse body in
        let out = reserve second tenant (requested_tokens r.path payload) now s.quota in
        elim (same_reserve tenant (as_string (member_of Words.model_key payload)) body
          (record s { quota = out.1 }) (out.0)) [
            | inl allowed ↦ inl (record {
              tenant = tenant;
              body = body;
              known = k;
              complete = e;
              allowed = allowed;
            })
            | inr same ↦ inr same
          ]

    same_verdict :
        (v : Verdict)
        → identify second parse dumps decode_token s r ≡ v
        → IsAdmitted r now s
          ⊎ (after_auth second parse dumps r later app now s v
              ≡ after_auth second parse dumps r later other now s v)
    same_verdict (tenant_is tenant) e = same_body tenant (read_body r.received) refl e
    same_verdict (rejected x) e = inr refl
    same_verdict crashed e = inr refl

    -- On a protected path the application has no part in the outcome, neither in what is sent nor in what
    -- is kept, unless the request is from a known tenant, its body has come and its quota allows it.
    pub call-admits :
        is_protected r ≡ true
        → IsAdmitted r now s
          ⊎ (call second parse dumps decode_token app r now later s
              ≡ call second parse dumps decode_token other r now later s)
    unfolding call
    call-admits p = rw p (same_verdict (identify second parse dumps decode_token s r) refl)

  module _ (r : Request) (now later : ℕ) (s : Server) (app : Scope → TokenQuota → Ran) (log : Text)
      (logs : s.config.audit_log ≡ some log) where
    written :
        (tenant : Text) (model : Option Text) (reservation : Option Reservation) (tokens : ℤ)
        (status : ℕ) (q : TokenQuota) (n : ℕ)
        → let t =
            leave second parse dumps r later tenant model reservation tokens status
              (record s { quota = q; quota_rejections = n }) in
          (entry : AuditRecord) × (t.audit ≡ s.audit ++ entry ∷ [])
          × (entry.status ≡ status)
          × (entry.route ≡ r.path)
    written tenant model none tokens status q n = rw logs (_, refl, refl, refl)
    written tenant model (some reservation) tokens status q n = rw logs (_, refl, refl, refl)

    IsAudited-answer :
        (tenant : Text) (model : Option Text) (body : Text) (q : TokenQuota) (a : Answer)
        → IsAudited r s (
            after_reserve second parse dumps r later app tenant model body
              (record s { quota = q })
              a)
    unfolding send_error
    IsAudited-answer tenant model body q unlimited =
        let ran = app (record { path = r.path; tenant = tenant; body = body }) q in
        written tenant model none ran.audit_tokens (status_after 500 ran.messages) ran.quota
          s.quota_rejections
    IsAudited-answer tenant model body q (granted x) =
        let ran = app (record { path = r.path; tenant = tenant; body = body }) q in
        written tenant model (some x) ran.audit_tokens (status_after 500 ran.messages) ran.quota
          s.quota_rejections
    IsAudited-answer tenant model body q (exceeded e) =
        written tenant model none (pos 0) 429 q (suc s.quota_rejections)

    IsAudited-body :
        (tenant : Text) (o : Option Text)
        → IsAudited r s (after_body second parse dumps r later app tenant now s o)
    IsAudited-body tenant none = tt
    IsAudited-body tenant (some body) =
        let payload = json_object parse body in
        let out = reserve second tenant (requested_tokens r.path payload) now s.quota in
        IsAudited-answer tenant (as_string (member_of Words.model_key payload)) body (out.1) (out.0)

    IsAudited-verdict :
        (v : Verdict) → IsAudited r s (after_auth second parse dumps r later app now s v)
    unfolding send_error
    IsAudited-verdict (tenant_is tenant) = IsAudited-body tenant (read_body r.received)
    IsAudited-verdict (rejected e) =
        written Words.anonymous none none (pos 0) 401 s.quota s.quota_rejections
    IsAudited-verdict crashed =
        written Words.anonymous none none (pos 0) 500 s.quota s.quota_rejections

    -- Where a log is configured, every request on a protected path that ends, whether it is served,
    -- refused or raises, adds exactly one record to it, with its route and the status that was last
    -- sent to the client, or 500 where none was.
    pub call-IsAudited :
        is_protected r ≡ true
        → IsAudited r s (call second parse dumps decode_token app r now later s)
    unfolding call
    call-IsAudited p = rw p (IsAudited-verdict (identify second parse dumps decode_token s r))
