-- ===== src/Serve/Config/Env.antt =====
-- `EnterpriseConfig.from_env`: the variables of the environment, and the JSON in them and in files.
use autotree.Base.{
  ℕ, ◌*◌, ◌+◌, ◌-◌, zero, suc, Bool, true, false, ◌&&◌, ◌||◌, Option, none, some, List, [], ◌∷◌,
  leb, ◌==◌, if◌then◌else◌, Text, Table, update, ℤ, pos, negsuc,
}
use autotree.Serve.Json.{Json, integer, string, object, entries}
use autotree.Serve.Config.{
  partial_oidc, no_algorithms, not_strings, not_integers, not_an_object, unreadable, bad_window,
  Loaded, loaded, failed, ◌>>=◌, ◌>>◌, fail_if, OidcConfig, EnterpriseConfig, is_empty, post_init,
}

-- the characters that `str.strip` removes
abbrev is_space : ℕ → Bool
is_space c =
    leb 9 c && leb c 13
    || leb 28 c && leb c 32
    || c == 133
    || c == 160
    || c == 5760
    || leb 8192 c && leb c 8202
    || c == 8232
    || c == 8233
    || c == 8239
    || c == 8287
    || c == 12288

abbrev strip_left : Text → Text
strip_left [] = []
strip_left (c ∷ cs) = if is_space c then strip_left cs else c ∷ cs

-- a character before a stripped end: dropped where only spaces follow
abbrev keep_unless_last : ℕ → Text → Text
keep_unless_last c [] = if is_space c then [] else c ∷ []
keep_unless_last c (d ∷ rest) = c ∷ (d ∷ rest)

abbrev strip_right : Text → Text
strip_right [] = []
strip_right (c ∷ cs) = keep_unless_last c (strip_right cs)

abbrev strip : Text → Text
strip text = strip_right (strip_left text)

abbrev comma : ℕ
comma = 44

abbrev onto_first : ℕ → List Text → List Text
onto_first c [] = (c ∷ []) ∷ []
onto_first c (t ∷ ts) = (c ∷ t) ∷ ts

-- `text.split(",")`
abbrev split_commas : Text → List Text
split_commas [] = [] ∷ []
split_commas (c ∷ cs) =
    let rest = split_commas cs in if c == comma then [] ∷ rest else onto_first c rest

abbrev stripped : List Text → List Text
stripped [] = []
stripped (t ∷ ts) = let rest = stripped ts in if is_empty (strip t) then rest else strip t ∷ rest

-- the digits of `int(text)`, with single underscores between them
abbrev digits : Bool → ℕ → Text → Option ℕ
digits after n [] = if after then some n else none
digits after n (c ∷ cs) =
    if leb 48 c && leb c 57
    then digits true (n * 10 + (c - 48)) cs
    else (if after && c == 95 then digits false n cs else none)

abbrev negated : Option ℕ → Option ℤ
negated none = none
negated (some zero) = some (pos 0)
negated (some (suc n)) = some (negsuc n)

abbrev plain : Option ℕ → Option ℤ
plain none = none
plain (some n) = some (pos n)

abbrev signed : Text → Option ℤ
signed [] = none
signed (c ∷ cs) =
    if c == 45
    then negated (digits false 0 cs)
    else (if c == 43 then plain (digits false 0 cs) else plain (digits false 0 (c ∷ cs)))

-- `int(text)` on the digits of ASCII
abbrev pub int_of : Text → Loaded ℤ
int_of text = elim (signed (strip text)) [ none ↦ failed bad_window | some n ↦ loaded n ]

abbrev pub text_or : Text → Option Text → Text
text_or t none = t
text_or t (some s) = s

-- a variable that is unset or empty is not used
abbrev pub non_empty : Option Text → Option Text
non_empty none = none
non_empty (some []) = none
non_empty (some (c ∷ cs)) = some (c ∷ cs)

abbrev object_entries : Json → Loaded (Table Json)
object_entries (object m) = loaded (entries m)
object_entries _ = failed not_an_object

abbrev strings_of : Table Json → Loaded (Table Text)
strings_of [] = loaded []
strings_of ((k, string s) ∷ rest) = strings_of rest >>= λ others. loaded ((k, s) ∷ others)
strings_of ((k, _) ∷ rest) = failed not_strings

abbrev integers_of : Table Json → Loaded (Table ℤ)
integers_of [] = loaded []
integers_of ((k, integer n) ∷ rest) = integers_of rest >>= λ others. loaded ((k, n) ∷ others)
integers_of ((k, _) ∷ rest) = failed not_integers

-- the variables that are read, less the prefix AUTOTREE in their names
pub data Variable : Type 0 where
  api_keys api_keys_file tenant_quotas tenant_quotas_file : Variable
  oidc_jwks_url oidc_issuer oidc_audience oidc_algorithms : Variable
  audit_log quota_window_seconds : Variable

-- RS256 and 60
abbrev pub default_algorithm : Text
default_algorithm = 82 ∷ (83 ∷ (50 ∷ (53 ∷ (54 ∷ []))))

abbrev pub default_window : Text
default_window = 54 ∷ (48 ∷ [])

module _ (parse : Text → Option Json) (read_text : Text → Option Text) where
  abbrev parsed : Option Text → Loaded Json
  parsed none = failed unreadable
  parsed (some text) = elim (parse text) [ none ↦ failed unreadable | some value ↦ loaded value ]

  abbrev from_file : Option Text → Loaded (Table Json)
  from_file none = loaded []
  from_file (some path) = parsed (read_text path) >>= λ value. object_entries value

  abbrev from_raw : Option Text → Table Json → Loaded (Table Json)
  from_raw none merged = loaded merged
  from_raw (some raw) merged = do
    value ← parsed (some raw)
    found ← object_entries value
    loaded (update merged found)

  -- `_load_mapping`: the entries of the variable stand over those of the file
  unfoldable pub load_mapping : Option Text → Option Text → Loaded (Table Json)
  load_mapping raw filename = do
    merged ← from_file (non_empty filename)
    from_raw (non_empty raw) merged

  unfoldable pub load_string_mapping : Option Text → Option Text → Loaded (Table Text)
  load_string_mapping raw filename = load_mapping raw filename >>= λ value. strings_of value

  unfoldable pub load_int_mapping : Option Text → Option Text → Loaded (Table ℤ)
  load_int_mapping raw filename = load_mapping raw filename >>= λ value. integers_of value

  abbrev with_algorithms : Text → Text → Text → List Text → Loaded (Option OidcConfig)
  with_algorithms url issuer audience algorithms = do
    fail_if (is_empty algorithms) no_algorithms
    loaded (
        some (record {
          jwks_url = url;
          issuer = issuer;
          audience = audience;
          algorithms = algorithms;
        }))

  -- all three of the OIDC values, or none of them
  abbrev pub oidc_of : Text → Option Text → Option Text → Option Text → Loaded (Option OidcConfig)
  oidc_of algorithms none none none = loaded none
  oidc_of algorithms (some url) (some issuer) (some audience) =
      with_algorithms url issuer audience (stripped (split_commas algorithms))
  oidc_of algorithms _ _ _ = failed partial_oidc

  unfoldable pub from_env : (Variable → Option Text) → Loaded EnterpriseConfig
  from_env env = do
    keys ← load_string_mapping (env api_keys) (env api_keys_file)
    limits ← load_int_mapping (env tenant_quotas) (env tenant_quotas_file)
    oidc ←
        oidc_of (text_or default_algorithm (env oidc_algorithms)) (non_empty (env oidc_jwks_url))
          (non_empty (env oidc_issuer)) (non_empty (env oidc_audience))
    seconds ← int_of (text_or default_window (env quota_window_seconds))
    post_init (record {
      api_keys = keys;
      oidc = oidc;
      quotas = limits;
      quota_window_seconds = seconds;
      audit_log = non_empty (env audit_log);
    })
