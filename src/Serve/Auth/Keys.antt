-- ===== src/Serve/Auth/Keys.antt =====
-- API keys: the loop of `authenticate` against a look-up in the dict of keys.
use autotree.Base.{
  ◌≡◌, ◌≢◌, inl, inr, refl, sym, ◌∙◌, subst, true, false, Option, none, some, List, [], ◌∷◌,
  Bool-cases, All, Text, Table, find, same_text, same_text_sound, same_text_refl,
}
use autotree.Serve.Config.{EnterpriseConfig, OidcConfig, is_empty}
use autotree.Serve.Words.{api_key_header}
use autotree.Serve.Auth.{
  invalid_api_key, Verdict, tenant_is, rejected, crashed, Decoded, is_ascii, match_key,
  authenticate,
}

same_text_sym : (a b : Text) → same_text a b ≡ same_text b a
same_text_sym a b = elim (Bool-cases (same_text a b)) [
  | inl same ↦
      same ∙ sym (subst (λ t. same_text t a ≡ true) (same_text_sound a b same) (same_text_refl a))
  | inr other ↦ elim (Bool-cases (same_text b a)) [
    | inl same ↦ subst (λ t. same_text t b ≡ same_text b t) (same_text_sound b a same) refl
    | inr apart ↦ other ∙ sym apart
  ]
]

abbrev of_tenant : Option Text → Verdict
of_tenant none = rejected invalid_api_key
of_tenant (some tenant) = tenant_is tenant

abbrev IsAsciiKey : Text × Text → Type 0
IsAsciiKey (key, tenant) = is_ascii key ≡ true

match_key-find :
    (given : Text) (keys : Table Text)
    → is_ascii given ≡ true
    → All IsAsciiKey keys
    → match_key given keys ≡ of_tenant (find given keys)
unfolding match_key
match_key-find given [] g h = refl
match_key-find given ((key, tenant) ∷ rest) g h =
    rw (g, h.0)
      (elim (Bool-cases (same_text given key)) [
        | inl same ↦ rw same (rw (sym (same_text_sym given key) ∙ same) refl)
        | inr other ↦
            rw other (rw (sym (same_text_sym given key) ∙ other) (match_key-find given rest g h.1))
      ])

not_empty : {A : Type 0} (xs : List A) → xs ≢ [] → is_empty xs ≡ false
not_empty [] h = absurd (h refl)
not_empty (x ∷ xs) h = refl

module _ (decode_token : OidcConfig → Text → Decoded) (c : EnterpriseConfig) (headers : Table Text)
    (key : Text) (given : find api_key_header headers ≡ some key) (some_key : key ≢ []) where
  by_header : authenticate decode_token c headers ≡ match_key key c.api_keys
  unfolding authenticate
  by_header = rw given (rw (not_empty key some_key) refl)

  -- A request with an API key, where that key and the configured keys are ASCII, is identified as the
  -- tenant that the dict of keys has for it, and is refused where it has none, whatever other
  -- credentials the request bears.
  pub authenticate-find :
      is_ascii key ≡ true
      → All IsAsciiKey c.api_keys
      → authenticate decode_token c headers ≡ of_tenant (find key c.api_keys)
  authenticate-find a h = by_header ∙ match_key-find key c.api_keys a h

  -- Where keys are configured, an API key that is not ASCII is not refused: `compare_digest` raises a
  -- `TypeError`, which is no `AuthenticationError` and leaves `authenticate`.
  pub authenticate-not_ascii :
      is_ascii key ≡ false → c.api_keys ≢ [] → authenticate decode_token c headers ≡ crashed
  unfolding match_key
  authenticate-not_ascii a h = by_header ∙ raises c.api_keys h
    where
      raises : (keys : Table Text) → keys ≢ [] → match_key key keys ≡ crashed
      raises [] n = absurd (n refl)
      raises ((k, t) ∷ rest) n = rw a refl
