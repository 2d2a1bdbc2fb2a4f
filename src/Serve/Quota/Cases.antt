-- ===== src/Serve/Quota/Cases.antt =====
-- The three ways in which `reserve` ends, and the two of `settle`.
use autotree.Base.{
  subst, sym, ◌∙◌, some-injective, ℕ, ◌+◌, ◌-◌, ◌≤◌, ◌<◌, ◌≡◌, refl, ◌⊎◌, inl, inr, false, none,
  some, ltb, ◌==◌, arith, Option-cases, Bool-cases, Text, find, store, ℤ,
}
use autotree.Serve.Quota.{
  TokenQuota, QuotaState, Reservation, Answer, unlimited, granted, exceeded, reserve, settle,
  state_at, save, seconds_left, with_refund,
}

module _ (second : ℕ) where
  abbrev pub refusal : TokenQuota → Text → ℕ → ℕ → Answer
  refusal q tenant now limit = exceeded (record {
    limit = limit;
    remaining = limit - (state_at second q tenant now).used;
    retry_after = seconds_left second q now (state_at second q tenant now);
  })

  abbrev pub reservation : TokenQuota → Text → ℕ → ℕ → Reservation
  reservation q tenant requested now = record {
    tenant = tenant;
    reserved = requested;
    window_started = (state_at second q tenant now).window_started;
  }

  abbrev pub charged : TokenQuota → Text → ℕ → ℕ → QuotaState
  charged q tenant requested now =
      let s = state_at second q tenant now in record s { used = s.used + requested }

  pub data Reserves (tenant : Text) (requested now : ℕ) (q : TokenQuota) : Type 0 where
    without_limit :
        (find tenant q.limits ≡ none) ⊎ (requested ≡ 0)
        → reserve second tenant requested now q ≡ (unlimited, q)
        → Reserves tenant requested now q
    within :
        (limit : ℕ)
        → find tenant q.limits ≡ some limit
        → (state_at second q tenant now).used + requested ≤ limit
        → reserve second tenant requested now q ≡ (
          granted (reservation q tenant requested now),
          save second tenant (charged q tenant requested now) q,
        )
        → Reserves tenant requested now q
    beyond :
        (limit : ℕ)
        → find tenant q.limits ≡ some limit
        → limit < (state_at second q tenant now).used + requested
        → reserve second tenant requested now q
          ≡ (refusal q tenant now limit, save second tenant (state_at second q tenant now) q)
        → Reserves tenant requested now q

  pub reserve-cases :
      (tenant : Text) (requested now : ℕ) (q : TokenQuota) → Reserves tenant requested now q
  unfolding reserve
  reserve-cases tenant requested now q = elim (Option-cases (find tenant q.limits)) [
    | inl gone ↦ without_limit (inl gone) (rw gone refl)
    | inr (limit, has) ↦ elim (Bool-cases (requested == 0)) [
      | inl z ↦ without_limit (inr (ground arith)) (rw has (rw z refl))
      | inr nz ↦ elim (Bool-cases (ltb (limit - (state_at second q tenant now).used) requested)) [
        | inl over ↦ beyond limit has (ground arith) (rw has (rw nz (rw over refl)))
        | inr fits ↦ within limit has (ground arith) (rw has (rw nz (rw fits refl)))
      ]
    ]
  ]

pub data Settles (r : Reservation) (actual : ℤ) (q : TokenQuota) : Type 0 where
  refunded :
      (s : QuotaState)
      → find r.tenant q.states ≡ some s
      → s.window_started ≡ r.window_started
      → settle r actual q
        ≡ record q { states = store r.tenant (with_refund r.reserved actual s) q.states }
      → Settles r actual q
  ignored :
      settle r actual q ≡ q
      → ((limit : ℕ) (s : QuotaState)
          → find r.tenant q.limits ≡ some limit
          → find r.tenant q.states ≡ some s
          → (s.window_started == r.window_started) ≡ false)
      → Settles r actual q

pub settle-cases : (r : Reservation) (actual : ℤ) (q : TokenQuota) → Settles r actual q
unfolding settle
settle-cases r actual q = elim (Option-cases (find r.tenant q.limits)) [
  | inl gone ↦ ignored (rw gone refl) (λ limit s a b. ground (arith, a))
  | inr (limit, has) ↦ elim (Option-cases (find r.tenant q.states)) [
    | inl blank ↦ ignored (rw has (rw blank refl)) (λ limit s a b. ground (arith, b))
    | inr (s, known) ↦ elim (Bool-cases (s.window_started == r.window_started)) [
      | inl same ↦ refunded s known (ground arith) (rw has (rw known (rw same refl)))
      | inr other ↦ ignored (rw has (rw known (rw other refl))) λ limit s a b.
          subst (λ z. (z.window_started == r.window_started) ≡ false)
            (some-injective (sym known ∙ b)) other
    ]
  ]
]
