-- ===== src/Serve/Middleware/Charges.antt =====
-- What a request is charged.
use autotree.Base.{
  ℕ, zero, suc, ◌+◌, ◌-◌, ◌≤◌, ◌<◌, ◌≡◌, inl, inr, refl, sym, ap, ◌∙◌, true, false, Option, none,
  some, arith, Option-cases, some-injective, none≢some, Text, find, find-store, same_text_refl, ℤ,
  pos, negsuc, at_least_zero,
}
use autotree.Serve.Json.{Json, Members, member_of, as_integer, as_object}
use autotree.Serve.Config.{OidcConfig}
use autotree.Serve.Quota.{TokenQuota, QuotaState, Reservation, settle, state_at, save, with_refund}
use autotree.Serve.Quota.Cases.{
  without_limit, within, beyond, reserve-cases, refunded, ignored, settle-cases, charged,
  reservation,
}
use autotree.Serve.Auth.{tenant_is, Decoded}
use autotree.Serve.Words
use autotree.Serve.Payloads.{
  is_completion, read_body, requested_tokens, as_positive, first_of, budget, json_object,
}
use autotree.Serve.Middleware.{
  Request, Scope, Ran, Server, Outcome, waiting, ended, is_protected, leave, identify, call,
}

first_of-positive : (o : Option ℤ) (later : ℕ) → 0 < later → 0 < first_of (as_positive o) later
first_of-positive none later h = h
first_of-positive (some (pos zero)) later h = h
first_of-positive (some (pos (suc n))) later h = omega arith
first_of-positive (some (negsuc n)) later h = h

budget-positive : (o : Option Members) (later : ℕ) → 0 < later → 0 < first_of (budget o) later
budget-positive none later h = h
budget-positive (some tree) later h =
    first_of-positive (as_integer (member_of Words.budget_tokens_key tree)) later h

-- Whatever its payload says, a completion request asks for one token at least.
requested_tokens-positive :
    (route : Text) (payload : Members)
    → is_completion route ≡ true
    → 0 < requested_tokens route payload
unfolding requested_tokens
requested_tokens-positive route payload h = rw h (
    budget-positive (as_object (member_of Words.tree_key payload)) _ (
      first_of-positive (as_integer (member_of Words.max_completion_tokens_key payload)) _
        (first_of-positive (as_integer (member_of Words.max_tokens_key payload)) 16 (omega arith))))

-- reserving and then settling leaves the tokens that were generated
settle-reserve :
    (second : ℕ) (tenant : Text) (requested now limit : ℕ) (actual : ℤ) (q : TokenQuota)
    → find tenant q.limits ≡ some limit
    → let s = state_at second q tenant now in
      find tenant (
        (settle
          (reservation second q tenant requested now)
          actual
          (save second tenant (charged second q tenant requested now) q)).states)
      ≡ some (record { window_started = s.window_started; used = s.used + at_least_zero actual })
settle-reserve second tenant requested now limit actual q has =
    let s = state_at second q tenant now in
    let after = save second tenant (charged second q tenant requested now) q in
    let there : find tenant after.states ≡ some (charged second q tenant requested now) =
      find-store tenant tenant (charged second q tenant requested now) q.states
      ∙ rw (same_text_refl tenant) refl in
    elim (settle-cases (reservation second q tenant requested now) actual after) [
      | refunded z known same e ↦
          let sum : s.used + requested + at_least_zero actual - requested
              ≡ s.used + at_least_zero actual =
            omega arith in
          rw e (
            find-store tenant tenant (with_refund requested actual z) after.states
            ∙ rw (same_text_refl tenant) (
                ap (λ y. some (with_refund requested actual y)) (some-injective (sym known ∙ there))
                ∙ ap (λ u. some (record { window_started = s.window_started; used = u })) sum))
      | ignored e old ↦
          absurd (ground (arith, old limit (charged second q tenant requested now) has there))
    ]

-- the tenant's window then holds what it held, and the tokens of the request
abbrev pub IsCharged : Text → QuotaState → ℤ → Outcome → Type 0
IsCharged tenant s tokens waiting = false ≡ true
IsCharged tenant s tokens (ended sent raises t) =
    find tenant t.quota.states
    ≡ some (record { window_started = s.window_started; used = s.used + at_least_zero tokens })

module _ (second : ℕ) (parse : Text → Option Json) (dumps : Json → Text)
    (decode_token : OidcConfig → Text → Decoded) (app : Scope → TokenQuota → Ran) (r : Request)
    (now later : ℕ) (s : Server) (tenant body : Text) (limit : ℕ) (tokens : ℤ) where
  left-IsCharged :
      (model : Option Text) (x : Reservation) (status : ℕ) (t : Server) (z : QuotaState)
      → find tenant ((settle x tokens t.quota).states)
        ≡ some (record { window_started = z.window_started; used = z.used + at_least_zero tokens })
      → find tenant
          ((leave second parse dumps r later tenant model (some x) tokens status t).quota.states)
        ≡ some (record { window_started = z.window_started; used = z.used + at_least_zero tokens })
  left-IsCharged model x status t z h = elim (Option-cases t.config.audit_log) [
    | inl blank ↦ rw blank h
    | inr (log, e) ↦ rw e h
  ]

  -- A completion request of a known tenant that fits its quota ends with the tenant charged for exactly
  -- the tokens that the application generated, however many were reserved and whether or not the
  -- application raised, where no other request of the server uses the quota meanwhile.
  pub call-IsCharged :
      is_protected r ≡ true
      → is_completion r.path ≡ true
      → identify second parse dumps decode_token s r ≡ tenant_is tenant
      → read_body r.received ≡ some body
      → find tenant s.quota.limits ≡ some limit
      → (state_at second s.quota tenant now).used + requested_tokens r.path (json_object parse body)
        ≤ limit
      → ((q : TokenQuota)
          → let ran = app (record { path = r.path; tenant = tenant; body = body }) q in
            (ran.quota ≡ q) × (ran.audit_tokens ≡ tokens))
      → IsCharged tenant
          (state_at second s.quota tenant now)
          tokens
          (call second parse dumps decode_token app r now later s)
  unfolding call
  call-IsCharged p completion known complete has fits alone =
      let requested = requested_tokens r.path (json_object parse body) in
      let some_tokens = requested_tokens-positive r.path (json_object parse body) completion in
      let q = save second tenant (charged second s.quota tenant requested now) s.quota in
      elim (reserve-cases second tenant requested now s.quota) [
        | without_limit why e ↦ elim why [
          | inl gone ↦ absurd (none≢some (sym gone ∙ has))
          | inr none_asked ↦ absurd (omega (arith, some_tokens, none_asked))
        ]
        | within l found room e ↦ rw p (
            rw known (
              rw complete (
                rw e (
                  rw ((alone q).1) (
                    rw ((alone q).0) (
                      left-IsCharged _ (reservation second s.quota tenant requested now) _
                        (record s { quota = q }) (state_at second s.quota tenant now)
                        (settle-reserve second tenant requested now limit tokens s.quota has)))))))
        | beyond l found over e ↦
            let same = some-injective (sym found ∙ has) in absurd (omega (arith, over, fits, same))
      ]
