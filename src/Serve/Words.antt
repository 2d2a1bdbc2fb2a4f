-- ===== src/Serve/Words.antt =====
-- The strings of serve/autotree_serve/enterprise.py, as the codes of their characters.
use autotree.Base.{Text, [], ◌∷◌}

-- `/v1/`
abbrev pub v1_prefix : Text
v1_prefix = 47 ∷ 118 ∷ 49 ∷ 47 ∷ []

-- `/v1/chat/completions`
abbrev pub chat_route : Text
chat_route =
    47 ∷ 118 ∷ 49 ∷ 47 ∷ 99 ∷ 104 ∷ 97 ∷ 116 ∷ 47 ∷ 99 ∷ 111 ∷ 109 ∷ 112 ∷ 108 ∷ 101 ∷ 116 ∷ 105
    ∷ 111 ∷ 110 ∷ 115 ∷ []

-- `/v1/tree/completions`
abbrev pub tree_route : Text
tree_route =
    47 ∷ 118 ∷ 49 ∷ 47 ∷ 116 ∷ 114 ∷ 101 ∷ 101 ∷ 47 ∷ 99 ∷ 111 ∷ 109 ∷ 112 ∷ 108 ∷ 101 ∷ 116 ∷ 105
    ∷ 111 ∷ 110 ∷ 115 ∷ []

-- `x-api-key`
abbrev pub api_key_header : Text
api_key_header = 120 ∷ 45 ∷ 97 ∷ 112 ∷ 105 ∷ 45 ∷ 107 ∷ 101 ∷ 121 ∷ []

-- `authorization`
abbrev pub authorization : Text
authorization = 97 ∷ 117 ∷ 116 ∷ 104 ∷ 111 ∷ 114 ∷ 105 ∷ 122 ∷ 97 ∷ 116 ∷ 105 ∷ 111 ∷ 110 ∷ []

-- `bearer`
abbrev pub bearer : Text
bearer = 98 ∷ 101 ∷ 97 ∷ 114 ∷ 101 ∷ 114 ∷ []

-- `www-authenticate`
abbrev pub www_authenticate : Text
www_authenticate =
    119 ∷ 119 ∷ 119 ∷ 45 ∷ 97 ∷ 117 ∷ 116 ∷ 104 ∷ 101 ∷ 110 ∷ 116 ∷ 105 ∷ 99 ∷ 97 ∷ 116 ∷ 101 ∷ []

-- `Bearer`
abbrev pub bearer_value : Text
bearer_value = 66 ∷ 101 ∷ 97 ∷ 114 ∷ 101 ∷ 114 ∷ []

-- `retry-after`
abbrev pub retry_after_header : Text
retry_after_header = 114 ∷ 101 ∷ 116 ∷ 114 ∷ 121 ∷ 45 ∷ 97 ∷ 102 ∷ 116 ∷ 101 ∷ 114 ∷ []

-- `content-type`
abbrev pub content_type : Text
content_type = 99 ∷ 111 ∷ 110 ∷ 116 ∷ 101 ∷ 110 ∷ 116 ∷ 45 ∷ 116 ∷ 121 ∷ 112 ∷ 101 ∷ []

-- `content-length`
abbrev pub content_length : Text
content_length =
    99 ∷ 111 ∷ 110 ∷ 116 ∷ 101 ∷ 110 ∷ 116 ∷ 45 ∷ 108 ∷ 101 ∷ 110 ∷ 103 ∷ 116 ∷ 104 ∷ []

-- `application/json`
abbrev pub json_type : Text
json_type =
    97 ∷ 112 ∷ 112 ∷ 108 ∷ 105 ∷ 99 ∷ 97 ∷ 116 ∷ 105 ∷ 111 ∷ 110 ∷ 47 ∷ 106 ∷ 115 ∷ 111 ∷ 110 ∷ []

-- `tenant`
abbrev pub tenant_claim : Text
tenant_claim = 116 ∷ 101 ∷ 110 ∷ 97 ∷ 110 ∷ 116 ∷ []

-- `tenant_id`
abbrev pub tenant_id_claim : Text
tenant_id_claim = 116 ∷ 101 ∷ 110 ∷ 97 ∷ 110 ∷ 116 ∷ 95 ∷ 105 ∷ 100 ∷ []

-- `tid`
abbrev pub tid_claim : Text
tid_claim = 116 ∷ 105 ∷ 100 ∷ []

-- `sub`
abbrev pub sub_claim : Text
sub_claim = 115 ∷ 117 ∷ 98 ∷ []

-- `anonymous`
abbrev pub anonymous : Text
anonymous = 97 ∷ 110 ∷ 111 ∷ 110 ∷ 121 ∷ 109 ∷ 111 ∷ 117 ∷ 115 ∷ []

-- `tree`
abbrev pub tree_key : Text
tree_key = 116 ∷ 114 ∷ 101 ∷ 101 ∷ []

-- `budget_tokens`
abbrev pub budget_tokens_key : Text
budget_tokens_key = 98 ∷ 117 ∷ 100 ∷ 103 ∷ 101 ∷ 116 ∷ 95 ∷ 116 ∷ 111 ∷ 107 ∷ 101 ∷ 110 ∷ 115 ∷ []

-- `max_completion_tokens`
abbrev pub max_completion_tokens_key : Text
max_completion_tokens_key =
    109 ∷ 97 ∷ 120 ∷ 95 ∷ 99 ∷ 111 ∷ 109 ∷ 112 ∷ 108 ∷ 101 ∷ 116 ∷ 105 ∷ 111 ∷ 110 ∷ 95 ∷ 116 ∷ 111
    ∷ 107 ∷ 101 ∷ 110 ∷ 115 ∷ []

-- `max_tokens`
abbrev pub max_tokens_key : Text
max_tokens_key = 109 ∷ 97 ∷ 120 ∷ 95 ∷ 116 ∷ 111 ∷ 107 ∷ 101 ∷ 110 ∷ 115 ∷ []

-- `model`
abbrev pub model_key : Text
model_key = 109 ∷ 111 ∷ 100 ∷ 101 ∷ 108 ∷ []

-- `error`
abbrev pub error_key : Text
error_key = 101 ∷ 114 ∷ 114 ∷ 111 ∷ 114 ∷ []

-- `message`
abbrev pub message_key : Text
message_key = 109 ∷ 101 ∷ 115 ∷ 115 ∷ 97 ∷ 103 ∷ 101 ∷ []

-- `type`
abbrev pub type_key : Text
type_key = 116 ∷ 121 ∷ 112 ∷ 101 ∷ []

-- `param`
abbrev pub param_key : Text
param_key = 112 ∷ 97 ∷ 114 ∷ 97 ∷ 109 ∷ []

-- `code`
abbrev pub code_key : Text
code_key = 99 ∷ 111 ∷ 100 ∷ 101 ∷ []

-- `authentication_error`
abbrev pub authentication_error : Text
authentication_error =
    97 ∷ 117 ∷ 116 ∷ 104 ∷ 101 ∷ 110 ∷ 116 ∷ 105 ∷ 99 ∷ 97 ∷ 116 ∷ 105 ∷ 111 ∷ 110 ∷ 95 ∷ 101 ∷ 114
    ∷ 114 ∷ 111 ∷ 114 ∷ []

-- `invalid_authentication`
abbrev pub invalid_authentication : Text
invalid_authentication =
    105 ∷ 110 ∷ 118 ∷ 97 ∷ 108 ∷ 105 ∷ 100 ∷ 95 ∷ 97 ∷ 117 ∷ 116 ∷ 104 ∷ 101 ∷ 110 ∷ 116 ∷ 105 ∷ 99
    ∷ 97 ∷ 116 ∷ 105 ∷ 111 ∷ 110 ∷ []

-- `rate_limit_error`
abbrev pub rate_limit_error : Text
rate_limit_error =
    114 ∷ 97 ∷ 116 ∷ 101 ∷ 95 ∷ 108 ∷ 105 ∷ 109 ∷ 105 ∷ 116 ∷ 95 ∷ 101 ∷ 114 ∷ 114 ∷ 111 ∷ 114 ∷ []

-- `tenant_token_quota_exceeded`
abbrev pub quota_exceeded_code : Text
quota_exceeded_code =
    116 ∷ 101 ∷ 110 ∷ 97 ∷ 110 ∷ 116 ∷ 95 ∷ 116 ∷ 111 ∷ 107 ∷ 101 ∷ 110 ∷ 95 ∷ 113 ∷ 117 ∷ 111 ∷ 116
    ∷ 97 ∷ 95 ∷ 101 ∷ 120 ∷ 99 ∷ 101 ∷ 101 ∷ 100 ∷ 101 ∷ 100 ∷ []

-- `Invalid API key`
abbrev pub invalid_api_key_text : Text
invalid_api_key_text =
    73 ∷ 110 ∷ 118 ∷ 97 ∷ 108 ∷ 105 ∷ 100 ∷ 32 ∷ 65 ∷ 80 ∷ 73 ∷ 32 ∷ 107 ∷ 101 ∷ 121 ∷ []

-- `Invalid OIDC bearer token`
abbrev pub invalid_bearer_text : Text
invalid_bearer_text =
    73 ∷ 110 ∷ 118 ∷ 97 ∷ 108 ∷ 105 ∷ 100 ∷ 32 ∷ 79 ∷ 73 ∷ 68 ∷ 67 ∷ 32 ∷ 98 ∷ 101 ∷ 97 ∷ 114 ∷ 101
    ∷ 114 ∷ 32 ∷ 116 ∷ 111 ∷ 107 ∷ 101 ∷ 110 ∷ []

-- `OIDC token does not contain a tenant or subject claim`
abbrev pub no_claim_text : Text
no_claim_text =
    79 ∷ 73 ∷ 68 ∷ 67 ∷ 32 ∷ 116 ∷ 111 ∷ 107 ∷ 101 ∷ 110 ∷ 32 ∷ 100 ∷ 111 ∷ 101 ∷ 115 ∷ 32 ∷ 110
    ∷ 111 ∷ 116 ∷ 32 ∷ 99 ∷ 111 ∷ 110 ∷ 116 ∷ 97 ∷ 105 ∷ 110 ∷ 32 ∷ 97 ∷ 32 ∷ 116 ∷ 101 ∷ 110 ∷ 97
    ∷ 110 ∷ 116 ∷ 32 ∷ 111 ∷ 114 ∷ 32 ∷ 115 ∷ 117 ∷ 98 ∷ 106 ∷ 101 ∷ 99 ∷ 116 ∷ 32 ∷ 99 ∷ 108 ∷ 97
    ∷ 105 ∷ 109 ∷ []

-- `Provide X-API-Key or a configured OIDC bearer token`
abbrev pub credentials_text : Text
credentials_text =
    80 ∷ 114 ∷ 111 ∷ 118 ∷ 105 ∷ 100 ∷ 101 ∷ 32 ∷ 88 ∷ 45 ∷ 65 ∷ 80 ∷ 73 ∷ 45 ∷ 75 ∷ 101 ∷ 121 ∷ 32
    ∷ 111 ∷ 114 ∷ 32 ∷ 97 ∷ 32 ∷ 99 ∷ 111 ∷ 110 ∷ 102 ∷ 105 ∷ 103 ∷ 117 ∷ 114 ∷ 101 ∷ 100 ∷ 32 ∷ 79
    ∷ 73 ∷ 68 ∷ 67 ∷ 32 ∷ 98 ∷ 101 ∷ 97 ∷ 114 ∷ 101 ∷ 114 ∷ 32 ∷ 116 ∷ 111 ∷ 107 ∷ 101 ∷ 110 ∷ []

-- `Tenant generated-token quota exceeded; `
abbrev pub quota_text : Text
quota_text =
    84 ∷ 101 ∷ 110 ∷ 97 ∷ 110 ∷ 116 ∷ 32 ∷ 103 ∷ 101 ∷ 110 ∷ 101 ∷ 114 ∷ 97 ∷ 116 ∷ 101 ∷ 100 ∷ 45
    ∷ 116 ∷ 111 ∷ 107 ∷ 101 ∷ 110 ∷ 32 ∷ 113 ∷ 117 ∷ 111 ∷ 116 ∷ 97 ∷ 32 ∷ 101 ∷ 120 ∷ 99 ∷ 101
    ∷ 101 ∷ 100 ∷ 101 ∷ 100 ∷ 59 ∷ 32 ∷ []

-- ` of `
abbrev pub of_text : Text
of_text = 32 ∷ 111 ∷ 102 ∷ 32 ∷ []

-- ` tokens remain in the current window.`
abbrev pub remain_text : Text
remain_text =
    32 ∷ 116 ∷ 111 ∷ 107 ∷ 101 ∷ 110 ∷ 115 ∷ 32 ∷ 114 ∷ 101 ∷ 109 ∷ 97 ∷ 105 ∷ 110 ∷ 32 ∷ 105 ∷ 110
    ∷ 32 ∷ 116 ∷ 104 ∷ 101 ∷ 32 ∷ 99 ∷ 117 ∷ 114 ∷ 114 ∷ 101 ∷ 110 ∷ 116 ∷ 32 ∷ 119 ∷ 105 ∷ 110
    ∷ 100 ∷ 111 ∷ 119 ∷ 46 ∷ []
