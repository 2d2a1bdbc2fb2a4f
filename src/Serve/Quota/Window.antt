-- ===== src/Serve/Quota/Window.antt =====
-- What `used` counts: the open reservations of the window, and what was settled in it.
use autotree.Base.{
  ℕ, ◌+◌, ◌-◌, ◌<◌, ◌≡◌, sym, subst, inl, inr, false, Option, none, some, List, ◌∷◌, leb, arith,
  Bool-cases, Text, same_text, same_text_refl, find, store-cases,
}
use autotree.Serve.Quota.{TokenQuota, QuotaState, Reservation, state_at, window, current, reserve}
use autotree.Serve.Quota.Ledger.{Ledger, Settlement, held, spent, opened, touches, held-untouched}
use autotree.Serve.Quota.Cases.{without_limit, within, beyond, reserve-cases, charged, reservation}

-- nothing was reserved or settled in that window
abbrev IsFresh : Text → ℕ → List Reservation → List Settlement → Type 0
IsFresh tenant w rs cs = (touches tenant w rs ≡ false) × (spent tenant w cs ≡ 0)

abbrev pub IsBalanced : Text → Option QuotaState → List Reservation → List Settlement → Type 0
IsBalanced tenant none rs cs = (w : ℕ) → IsFresh tenant w rs cs
IsBalanced tenant (some s) rs cs =
    (s.used ≡ held tenant s.window_started rs + spent tenant s.window_started cs)
    × ((w : ℕ) → s.window_started < w → IsFresh tenant w rs cs)

-- what another tenant reserves does not count
opened-IsBalanced :
    (tenant : Text) (o : Option QuotaState) (r : Reservation) (rs : List Reservation)
    (cs : List Settlement)
    → same_text r.tenant tenant ≡ false
    → IsBalanced tenant o rs cs
    → IsBalanced tenant o (r ∷ rs) cs
opened-IsBalanced tenant none r rs cs other b = λ w. (ground (arith, (b w).0), (b w).1)
opened-IsBalanced tenant (some s) r rs cs other b =
    (ground (arith, b.0), λ w later. (ground (arith, (b.1 w later).0), (b.1 w later).1))

module _ (second : ℕ) where
  -- looking at the state at a time opens a fresh window, or leaves the state as it is
  current-IsBalanced :
      (q : TokenQuota) (tenant : Text) (now : ℕ) (o : Option QuotaState) (rs : List Reservation)
      (cs : List Settlement)
      → 0 < window second q
      → IsBalanced tenant o rs cs
      → IsBalanced tenant (some (current second q now o)) rs cs
  current-IsBalanced q tenant now none rs cs h b =
      (omega (arith, held-untouched tenant now rs (b now).0, (b now).1), λ w later. b w)
  current-IsBalanced q tenant now (some s) rs cs h b =
      elim (Bool-cases (leb (window second q) (now - s.window_started))) [
        | inl elapsed ↦
            let later : s.window_started < now = ground arith in
            let fresh = b.1 now later in
            rw elapsed (
              omega (arith, held-untouched tenant now rs fresh.0, fresh.1),
              λ w h. b.1 w (omega arith),
            )
        | inr running ↦ rw running b
      ]

  charged-IsBalanced :
      (l : Ledger) (tenant : Text) (requested now : ℕ)
      → 0 < window second l.quota
      → IsBalanced tenant (find tenant l.quota.states) l.pending l.closed
      → IsBalanced tenant
          (some (charged second l.quota tenant requested now))
          (reservation second l.quota tenant requested now ∷ l.pending)
          l.closed
  charged-IsBalanced l tenant requested now h b =
      let c =
        current-IsBalanced l.quota tenant now (find tenant l.quota.states) l.pending l.closed h b in
      let own = same_text_refl tenant in
      (ground (arith, own, c.0), λ w later. (ground (arith, own, (c.1 w later).0), (c.1 w later).1))

  pub reserve-IsBalanced :
      (l : Ledger) (tenant u : Text) (requested now : ℕ)
      → 0 < window second l.quota
      → IsBalanced tenant (find tenant l.quota.states) l.pending l.closed
      → let out = reserve second u requested now l.quota in
        IsBalanced tenant (find tenant (out.1).states) (opened (out.0) l.pending) l.closed
  reserve-IsBalanced l tenant u requested now h b =
      elim (reserve-cases second u requested now l.quota) [
        | without_limit why e ↦ rw e b
        | within limit has fits e ↦ rw e (
            store-cases
              (λ o.
                IsBalanced tenant o (reservation second l.quota u requested now ∷ l.pending)
                  l.closed)
              tenant u _ _
              (λ same.
                subst
                  (λ v.
                    IsBalanced tenant (some (charged second l.quota v requested now))
                      (reservation second l.quota v requested now ∷ l.pending) l.closed)
                  (sym same) (charged-IsBalanced l tenant requested now h b))
              (λ other.
                opened-IsBalanced tenant (find tenant l.quota.states)
                  (reservation second l.quota u requested now) _ _ other b))
        | beyond limit has over e ↦ rw e (
            store-cases (λ o. IsBalanced tenant o l.pending l.closed) tenant u _ _
              (λ same.
                subst
                  (λ v. IsBalanced tenant (some (state_at second l.quota v now)) l.pending l.closed)
                  (sym same)
                  (current-IsBalanced l.quota tenant now (find tenant l.quota.states) l.pending
                    l.closed h b))
              (λ other. b))
      ]
