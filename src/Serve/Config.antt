-- ===== src/Serve/Config.antt =====
-- `EnterpriseConfig` of serve/autotree_serve/enterprise.py and how it is read from the environment.
-- A file is its path, and `json.loads` and `read_text` are parameters that may raise.
pub mod Env
pub mod Checks
use autotree.Base.{
  ℕ, zero, suc, ◌*◌, ◌+◌, ◌-◌, ◌≡◌, refl, Bool, true, false, not, ◌&&◌, ◌||◌, Option, none, some,
  List, [], ◌∷◌, ◌++◌, ltb, leb, ◌==◌, if◌then◌else◌, Text, Table, ℤ, pos, negsuc, positive,
}

-- the messages of the errors that configuration raises
pub data ConfigError : Type 0 where
  window_not_positive empty_api_key bad_quota quota_without_auth : ConfigError
  partial_oidc no_algorithms : ConfigError
  not_strings not_integers not_an_object unreadable bad_window : ConfigError

pub data Loaded (A : Type 0) : Type 0 where
  loaded : A → Loaded A
  failed : ConfigError → Loaded A

infixl 5 ◌>>=◌ ◌>>◌
abbrev pub ◌>>=◌ : {A B : Type 0} → Loaded A → (A → Loaded B) → Loaded B
◌>>=◌ (loaded a) f = f a
◌>>=◌ (failed e) f = failed e

abbrev pub ◌>>◌ : {A B : Type 0} → Loaded A → Loaded B → Loaded B
◌>>◌ (loaded a) m = m
◌>>◌ (failed e) m = failed e

abbrev pub fail_if : Bool → ConfigError → Loaded (Unit {0})
fail_if true e = failed e
fail_if false e = loaded tt

pub record OidcConfig : Type 0 where
  pub jwks_url : Text
  pub issuer : Text
  pub audience : Text
  pub algorithms : List Text

-- an integer of the source keeps its sign until it is checked
pub record EnterpriseConfig : Type 0 where
  pub api_keys : Table Text
  pub oidc : Option OidcConfig
  pub quotas : Table ℤ
  pub quota_window_seconds : ℤ
  pub audit_log : Option Text

-- `bool(xs)`, `not xs`
abbrev pub is_empty : {A : Type 0} → List A → Bool
is_empty [] = true
is_empty (x ∷ xs) = false

abbrev pub is_some : {A : Type 0} → Option A → Bool
is_some none = false
is_some (some a) = true

abbrev pub auth_enabled : EnterpriseConfig → Bool
auth_enabled c = not (is_empty c.api_keys) || is_some c.oidc

abbrev pub any_entry : {A : Type 0} → (A → Bool) → List A → Bool
any_entry p [] = false
any_entry p (x ∷ xs) = p x || any_entry p xs

abbrev pub is_positive : ℤ → Bool
is_positive n = is_some (positive n)

abbrev pub key_empty : Text × Text → Bool
key_empty (key, tenant) = is_empty key || is_empty tenant

abbrev pub quota_bad : Text × ℤ → Bool
quota_bad (tenant, limit) = is_empty tenant || not (is_positive limit)

-- `__post_init__`
unfoldable pub post_init : EnterpriseConfig → Loaded EnterpriseConfig
post_init c = do
  fail_if (not (is_positive c.quota_window_seconds)) window_not_positive
  fail_if (any_entry key_empty c.api_keys) empty_api_key
  fail_if (any_entry quota_bad c.quotas) bad_quota
  fail_if (not (is_empty c.quotas) && not (auth_enabled c)) quota_without_auth
  loaded c

-- the limits as the quota takes them
abbrev limits_of : Table ℤ → Table ℕ
limits_of [] = []
limits_of ((tenant, pos n) ∷ rest) = (tenant, n) ∷ limits_of rest
limits_of ((tenant, negsuc n) ∷ rest) = (tenant, 0) ∷ limits_of rest
