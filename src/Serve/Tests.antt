-- ===== src/Serve/Tests.antt =====
-- A server with one tenant, on which the theorems of the server are applied.
use autotree.Base.{
  ℕ, ◌≡◌, ◌⊎◌, ◌↔◌, ◌+◌, ◌*◌, refl, true, false, Option, none, some, [], ◌∷◌, ◌≤◌, arith, Text,
  Table, find, pos, list_equal, ◌<◌,
}
use autotree.Serve.Json.{Json, object, no_members}
use autotree.Serve.Config.{EnterpriseConfig, OidcConfig, loaded, post_init}
use autotree.Serve.Config.Checks.{IsUsable, post_init_iff}
use autotree.Serve.Words
use autotree.Serve.Auth.{tenant_is, crashed, Decoded, token_error, authenticate, match_key}
use autotree.Serve.Auth.Keys.{authenticate-find, authenticate-not_ascii}
use autotree.Serve.Payloads.{request, requested_tokens}
use autotree.Serve.Middleware.{Request, Scope, Ran, response_start, Server, call}
use autotree.Serve.Middleware.Guards.{IsAdmitted, IsAudited, call-admits, call-IsAudited}
use autotree.Serve.Middleware.Charges.{IsCharged, call-IsCharged}
use autotree.Serve.Quota.{TokenQuota, Reservation, reserve, settle, new_quota}
use autotree.Serve.Quota.Ledger.{Ledger, Reach, here, next, call_reserve, call_settle, start}
use autotree.Serve.Quota.Window.{IsBalanced}
use autotree.Serve.Quota.Run.{IsBounded, Reach-IsBalanced, Reach-IsBounded}
use autotree.Serve.Quota.Retry.{granted_tokens, reserve-retry}

abbrev acme : Text
acme = 97 ∷ []

abbrev limits : Table ℕ
limits = (acme, 10) ∷ []

abbrev first_reservation : Reservation
first_reservation = record { tenant = acme; reserved = 4; window_started = 5 }

abbrev reserved_once : Ledger
reserved_once = record {
  quota = (reserve 1 acme 4 5 (new_quota limits 60)).1;
  clock = 5;
  pending = first_reservation ∷ [];
  closed = [];
}

abbrev settled_once : Ledger
settled_once = record {
  quota = settle first_reservation (pos 3) reserved_once.quota;
  clock = 5;
  pending = [];
  closed = record { reservation = first_reservation; actual = pos 3 } ∷ [];
}

first_step : Reach 1 (start limits 60 0) reserved_once
unfolding reserve list_equal
first_step = next here (call_reserve (start limits 60 0) acme 4 5 (omega arith))

both_steps : Reach 1 (start limits 60 0) settled_once
both_steps = next first_step (call_settle reserved_once [] first_reservation [] (pos 3) refl)

Reach-IsBalanced_example :
    IsBalanced acme (find acme settled_once.quota.states) settled_once.pending settled_once.closed
unfolding list_equal
Reach-IsBalanced_example =
    Reach-IsBalanced 1 limits 60 0 settled_once acme 10 (omega arith) (omega arith) refl both_steps

Reach-IsBounded_example :
    IsBounded acme 10 settled_once.closed (find acme settled_once.quota.states)
unfolding list_equal
Reach-IsBounded_example = Reach-IsBounded 1 limits 60 0 settled_once acme 10 refl both_steps

-- eight of ten tokens used in the window that started at 5
abbrev busy : TokenQuota
busy = record {
  limits = limits;
  window_seconds = 60;
  states = (acme, record { window_started = 5; used = 8 }) ∷ [];
}

reserve-retry_example :
    (1 ≤ 35)
    × (35 ≤ 60)
    × ((wanted later : ℕ)
        → 0 < wanted
        → wanted ≤ 10
        → 30 + 35 * 1 ≤ later
        → granted_tokens ((reserve 1 acme wanted later ((reserve 1 acme 4 30 busy).1)).0) ≡ wanted)
unfolding reserve list_equal
reserve-retry_example =
    reserve-retry 1 busy acme 4 30 (record { limit = 10; remaining = 2; retry_after = 35 })
      (omega arith) (omega arith) (omega arith) refl

abbrev secret : Text
secret = 107 ∷ []

abbrev config : EnterpriseConfig
config = record {
  api_keys = (secret, acme) ∷ [];
  oidc = none;
  quotas = (acme, pos 100) ∷ [];
  quota_window_seconds = pos 60;
  audit_log = some (108 ∷ []);
}

post_init_iff_example : (post_init config ≡ loaded config) ↔ IsUsable config
post_init_iff_example = post_init_iff config

abbrev decode_token : OidcConfig → Text → Decoded
decode_token oidc token = token_error

abbrev headers : Table Text
headers = (Words.api_key_header, secret) ∷ []

authenticate-find_example : authenticate decode_token config headers ≡ tenant_is acme
unfolding list_equal
authenticate-find_example =
    authenticate-find decode_token config headers secret refl (λ e. cc) refl (refl, tt)

abbrev odd_headers : Table Text
odd_headers = (Words.api_key_header, 233 ∷ []) ∷ []

authenticate-not_ascii_example : authenticate decode_token config odd_headers ≡ crashed
unfolding list_equal
authenticate-not_ascii_example =
    authenticate-not_ascii decode_token config odd_headers (233 ∷ []) refl (λ e. cc) refl (λ e. cc)

abbrev parse : Text → Option Json
parse body = some (object no_members)

abbrev dumps : Json → Text
dumps value = []

abbrev app : Scope → TokenQuota → Ran
app scope q = record {
  messages = response_start 200 [] ∷ [];
  audit_tokens = pos 7;
  raises = false;
  quota = q;
}

abbrev other_app : Scope → TokenQuota → Ran
other_app scope q = record { messages = []; audit_tokens = pos 0; raises = true; quota = q }

abbrev server : Server
server = record {
  config = config;
  quota = new_quota ((acme, 100) ∷ []) 60;
  quota_rejections = 0;
  audit = [];
}

abbrev chat : Request
chat = record {
  is_http = true;
  path = Words.chat_route;
  headers = (Words.api_key_header, secret) ∷ [];
  received = request (123 ∷ (125 ∷ [])) false ∷ [];
}

call-admits_example :
    IsAdmitted 1 parse dumps decode_token chat 5 server
    ⊎ (call 1 parse dumps decode_token app chat 5 9 server
        ≡ call 1 parse dumps decode_token other_app chat 5 9 server)
call-admits_example = call-admits 1 parse dumps decode_token chat 5 9 server app other_app refl

call-IsAudited_example : IsAudited chat server (call 1 parse dumps decode_token app chat 5 9 server)
call-IsAudited_example =
    call-IsAudited 1 parse dumps decode_token chat 5 9 server app (108 ∷ []) refl refl

call-IsCharged_example :
    IsCharged acme
      (record { window_started = 5; used = 0 })
      (pos 7)
      (call 1 parse dumps decode_token app chat 5 9 server)
unfolding list_equal authenticate match_key requested_tokens
call-IsCharged_example =
    call-IsCharged 1 parse dumps decode_token app chat 5 9 server acme (123 ∷ (125 ∷ [])) 100
      (pos 7) refl refl refl refl refl (omega arith) (λ q. (refl, refl))
