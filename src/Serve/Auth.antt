-- ===== src/Serve/Auth.antt =====
-- `Authenticator` and `OIDCVerifier` of serve/autotree_serve/enterprise.py. The decoding of a token is a
-- parameter: `_decode_token` calls PyJWT.
pub mod Keys
use autotree.Base.{
  ℕ, ◌+◌, ◌-◌, Bool, true, false, not, ◌&&◌, ◌||◌, Option, none, some, List, [], ◌∷◌, ltb, leb,
  ◌==◌, if◌then◌else◌, map, Text, Table, find, same_text,
}
use autotree.Serve.Json.{Members, member_of, as_string}
use autotree.Serve.Config.{EnterpriseConfig, OidcConfig, is_empty}
use autotree.Serve.Words.{
  api_key_header, authorization, bearer, tenant_claim, tenant_id_claim, tid_claim, sub_claim,
}

pub data AuthenticationError : Type 0 where
  invalid_api_key invalid_bearer_token no_tenant_claim credentials_missing : AuthenticationError

-- `crashed` is an exception that is no `AuthenticationError`, which leaves the middleware
pub data Verdict : Type 0 where
  tenant_is : Text → Verdict
  rejected : AuthenticationError → Verdict
  crashed : Verdict

-- what `_decode_token` does: claims, one of the errors that `authenticate` catches, or another
pub data Decoded : Type 0 where
  claims : Members → Decoded
  token_error other_error : Decoded

abbrev pub is_ascii : Text → Bool
is_ascii [] = true
is_ascii (c ∷ cs) = ltb c 128 && is_ascii cs

-- `hmac.compare_digest` on two `str`, which raises a `TypeError` where one is not ASCII
abbrev pub compare_digest : Text → Text → Option Bool
compare_digest a b = if is_ascii a && is_ascii b then some (same_text a b) else none

-- `str.lower` on the characters of latin-1
abbrev lower_char : ℕ → ℕ
lower_char c =
    if leb 65 c && leb c 90 || leb 192 c && leb c 222 && not (c == 215) then c + 32 else c

abbrev pub lower : Text → Text
lower = map lower_char

abbrev blank : ℕ
blank = 32

-- `text.partition(" ")`, less the separator
abbrev partition : Text → Text × Text
partition [] = ([], [])
partition (c ∷ cs) =
    let (head, tail) = partition cs in if c == blank then ([], cs) else (c ∷ head, tail)

abbrev claimed : Option Text → Verdict → Verdict
claimed none later = later
claimed (some []) later = later
claimed (some (c ∷ cs)) later = tenant_is (c ∷ cs)

-- the first of the claims that is a string and not empty
abbrev first_claim : List Text → Members → Verdict
first_claim [] m = rejected no_tenant_claim
first_claim (name ∷ names) m = claimed (as_string (member_of name m)) (first_claim names m)

abbrev claim_names : List Text
claim_names = tenant_claim ∷ (tenant_id_claim ∷ (tid_claim ∷ (sub_claim ∷ [])))

-- `OIDCVerifier.verify` under the `except` of `authenticate`
unfoldable pub verify : Decoded → Verdict
verify (claims m) = first_claim claim_names m
verify token_error = rejected invalid_bearer_token
verify other_error = crashed

-- the loop over the configured keys
abbrev by_key : Text → Option Bool → Verdict → Verdict
by_key tenant none later = crashed
by_key tenant (some true) later = tenant_is tenant
by_key tenant (some false) later = later

unfoldable pub match_key : Text → Table Text → Verdict
match_key given [] = rejected invalid_api_key
match_key given ((expected, tenant) ∷ rest) =
    by_key tenant (compare_digest given expected) (match_key given rest)

abbrev value_or_empty : Option Text → Text
value_or_empty none = []
value_or_empty (some t) = t

module _ (decode_token : OidcConfig → Text → Decoded) where
  abbrev by_bearer : Option OidcConfig → Text × Text → Verdict
  by_bearer none (scheme, token) = rejected credentials_missing
  by_bearer (some oidc) (scheme, token) =
      if same_text (lower scheme) bearer && not (is_empty token)
      then verify (decode_token oidc token)
      else rejected credentials_missing

  unfoldable pub authenticate : EnterpriseConfig → Table Text → Verdict
  authenticate c headers =
      let key = value_or_empty (find api_key_header headers) in
      if not (is_empty key)
      then match_key key c.api_keys
      else by_bearer c.oidc (partition (value_or_empty (find authorization headers)))
