-- ===== src/Serve/Config/Checks.antt =====
-- What `__post_init__` accepts, and what `from_env` may return.
use autotree.Base.{
  ℕ, zero, suc, ◌≡◌, ◌≢◌, ◌↔◌, ◌⊎◌, inl, inr, refl, ap, subst, Bool, true, false, not, ◌&&◌, Option,
  some, List, [], ◌∷◌, arith, All, Bool-cases, Option-cases, Text, ℤ, pos, negsuc,
}
use autotree.Serve.Json.{Json}
use autotree.Serve.Config.{
  Loaded, loaded, failed, ◌>>=◌, ◌>>◌, fail_if, OidcConfig, EnterpriseConfig, is_empty, is_some,
  is_positive, any_entry, key_empty, quota_bad, auth_enabled, post_init, ConfigError,
}
use autotree.Serve.Config.Env.{
  Variable, api_keys, api_keys_file, tenant_quotas, tenant_quotas_file, oidc_algorithms,
  oidc_jwks_url, oidc_issuer, oidc_audience, quota_window_seconds, from_env, load_string_mapping,
  load_int_mapping, oidc_of, text_or, default_algorithm, default_window, non_empty, int_of,
}

abbrev IsKey : Text × Text → Type 0
IsKey (key, tenant) = (key ≢ []) × (tenant ≢ [])

abbrev IsQuota : Text × ℤ → Type 0
IsQuota (tenant, limit) = (tenant ≢ []) × ((n : ℕ) × (limit ≡ pos (suc n)))

abbrev HasAuth : EnterpriseConfig → Type 0
HasAuth c = (c.api_keys ≢ []) ⊎ ((o : OidcConfig) × (c.oidc ≡ some o))

pub record IsUsable (c : EnterpriseConfig) : Type 0 where
  pub window : (n : ℕ) × (c.quota_window_seconds ≡ pos (suc n))
  pub keys : All IsKey c.api_keys
  pub quotas : All IsQuota c.quotas
  pub auth : c.quotas ≢ [] → HasAuth c

module _ {A : Type 0} where
  non_empty_iff : (xs : List A) → (is_empty xs ≡ false) ↔ (xs ≢ [])
  non_empty_iff [] = (λ h. absurd (ground (arith, h)), λ h. absurd (h refl))
  non_empty_iff (x ∷ xs) = (λ h e. cc, λ h. refl)

  any_entry_iff :
      (p : A → Bool) (P : A → Type 0)
      → ((x : A) → (p x ≡ false) ↔ P x)
      → (xs : List A) → (any_entry p xs ≡ false) ↔ All P xs
  any_entry_iff p P h [] = (λ e. tt, λ a. refl)
  any_entry_iff p P h (x ∷ xs) = (
    λ e. ((h x).0 (ground arith), (any_entry_iff p P h xs).0 (ground arith)),
    λ a.
        let first = (h x).1 a.0 in
        let rest = (any_entry_iff p P h xs).1 a.1 in ground (arith, first, rest),
  )

is_positive_iff : (z : ℤ) → (is_positive z ≡ true) ↔ ((n : ℕ) × (z ≡ pos (suc n)))
is_positive_iff (pos zero) = (λ h. absurd (ground (arith, h)), λ (n, e). cc)
is_positive_iff (pos (suc n)) = (λ h. (n, refl), λ h. refl)
is_positive_iff (negsuc n) = (λ h. absurd (ground (arith, h)), λ (n, e). cc)

key_empty_iff : (e : Text × Text) → (key_empty e ≡ false) ↔ IsKey e
key_empty_iff (key, tenant) = (
  λ h. ((non_empty_iff key).0 (ground arith), (non_empty_iff tenant).0 (ground arith)),
  λ h.
      let k = (non_empty_iff key).1 h.0 in
      let t = (non_empty_iff tenant).1 h.1 in ground (arith, k, t),
)

quota_bad_iff : (e : Text × ℤ) → (quota_bad e ≡ false) ↔ IsQuota e
quota_bad_iff (tenant, limit) = (
  λ h. ((non_empty_iff tenant).0 (ground arith), (is_positive_iff limit).0 (ground arith)),
  λ h.
      let t = (non_empty_iff tenant).1 h.0 in
      let l = (is_positive_iff limit).1 h.1 in ground (arith, t, l),
)

-- a test that was passed, and what follows it
passed :
    {A : Type 0} (b : Bool) (e : ConfigError) (m : Loaded A) (a : A)
    → (fail_if b e >> m) ≡ loaded a
    → (b ≡ false) × (m ≡ loaded a)
passed true e m a h = cc
passed false e m a h = (refl, h)

value_of : {A : Type 0} → A → Loaded A → A
value_of a (loaded b) = b
value_of a (failed e) = a

loaded-injective : {A : Type 0} {a b : A} → loaded a ≡ loaded b → a ≡ b
unfolding value_of
loaded-injective {a = a} h = ap (value_of a) h

auth_iff :
    (c : EnterpriseConfig)
    → ((not (is_empty c.quotas) && not (auth_enabled c)) ≡ false) ↔ (c.quotas ≢ [] → HasAuth c)
auth_iff c = (
  λ h some_quota.
      let q = (non_empty_iff c.quotas).1 some_quota in
      elim (Bool-cases (is_empty c.api_keys)) [
        | inl without ↦ elim (Option-cases c.oidc) [
          | inl blank ↦ absurd (ground (arith, q, without, h, ap is_some blank))
          | inr (o, e) ↦ inr (o, e)
        ]
        | inr with_keys ↦ inl ((non_empty_iff c.api_keys).0 with_keys)
      ],
  λ h. elim (Bool-cases (is_empty c.quotas)) [
    | inl without ↦ ground arith
    | inr with_quotas ↦ elim (h ((non_empty_iff c.quotas).0 with_quotas)) [
      | inl keys ↦ let k = (non_empty_iff c.api_keys).1 keys in ground (arith, k)
      | inr (o, e) ↦ rw e (ground arith)
    ]
  ],
)

post_init_sound : (c d : EnterpriseConfig) → post_init c ≡ loaded d → (c ≡ d) × IsUsable c
unfolding post_init
post_init_sound c d h =
    let (a, h1) = passed (not (is_positive c.quota_window_seconds)) _ _ d h in
    let (b, h2) = passed (any_entry key_empty c.api_keys) _ _ d h1 in
    let (e, h3) = passed (any_entry quota_bad c.quotas) _ _ d h2 in
    let (f, h4) = passed (not (is_empty c.quotas) && not (auth_enabled c)) _ _ d h3 in
    (
      loaded-injective h4,
      record {
        window = (is_positive_iff c.quota_window_seconds).0 (ground (arith, a));
        keys = (any_entry_iff key_empty IsKey key_empty_iff c.api_keys).0 b;
        quotas = (any_entry_iff quota_bad IsQuota quota_bad_iff c.quotas).0 e;
        auth = (auth_iff c).0 f;
      },
    )

-- A configuration is accepted, and then unchanged, exactly where its window is positive, its API keys
-- and tenants are not empty, its limits are positive, and quotas come with a way to authenticate.
pub post_init_iff : (c : EnterpriseConfig) → (post_init c ≡ loaded c) ↔ IsUsable c
unfolding post_init
post_init_iff c = (
  λ h. (post_init_sound c c h).1,
  λ u.
      let a = (is_positive_iff c.quota_window_seconds).1 u.window in
      let b = (any_entry_iff key_empty IsKey key_empty_iff c.api_keys).1 u.keys in
      let d = (any_entry_iff quota_bad IsQuota quota_bad_iff c.quotas).1 u.quotas in
      let e = (auth_iff c).1 u.auth in rw a (rw b (rw d (rw e refl))),
)

-- whatever the call returns is usable
record Returns (m : Loaded EnterpriseConfig) : Type 0 where
  usable : (c : EnterpriseConfig) → m ≡ loaded c → IsUsable c

bind-Returns :
    {A : Type 0} (m : Loaded A) (f : A → Loaded EnterpriseConfig)
    → ((a : A) → Returns (f a))
    → Returns (m >>= f)
bind-Returns (loaded a) f h = h a
bind-Returns (failed e) f h = record { usable = λ c k. cc }

post_init-Returns : (c : EnterpriseConfig) → Returns (post_init c)
post_init-Returns c = record {
  usable = λ d h. let (e, u) = post_init_sound c d h in subst IsUsable e u;
}

from_env-Returns :
    (parse : Text → Option Json) (read_text : Text → Option Text) (env : Variable → Option Text)
    → Returns (from_env parse read_text env)
unfolding from_env
from_env-Returns parse read_text env =
    bind-Returns (load_string_mapping parse read_text (env api_keys) (env api_keys_file)) _ (λ keys.
      bind-Returns (load_int_mapping parse read_text (env tenant_quotas) (env tenant_quotas_file)) _
        (λ limits.
          bind-Returns
            (oidc_of parse read_text (text_or default_algorithm (env oidc_algorithms))
              (non_empty (env oidc_jwks_url)) (non_empty (env oidc_issuer))
              (non_empty (env oidc_audience)))
            _
            (λ oidc.
              bind-Returns (int_of (text_or default_window (env quota_window_seconds))) _
                (λ seconds. post_init-Returns _))))

-- Whatever the environment and its files hold, `from_env` raises or returns a usable configuration.
from_env-IsUsable :
    (parse : Text → Option Json) (read_text : Text → Option Text) (env : Variable → Option Text)
    (c : EnterpriseConfig)
    → from_env parse read_text env ≡ loaded c
    → IsUsable c
from_env-IsUsable parse read_text env c h = (from_env-Returns parse read_text env).usable c h
