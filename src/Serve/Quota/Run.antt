-- ===== src/Serve/Quota/Run.antt =====
-- What holds after any run of `reserve` and `settle` calls on a new quota.
use autotree.Base.{
  ℕ, ◌≤◌, ◌<◌, ◌≡◌, refl, sym, subst, ap, ◌∙◌, inl, inr, Option, none, some, List, [], ◌∷◌, ◌+◌,
  ◌-◌, true, if◌then◌else◌, ◌++◌, arith, Bool-cases, Text, same_text, same_text_sound,
  same_text_refl, Table, find, store-cases, ℤ, at_least_zero, some-injective,
}
use autotree.Serve.Quota.{TokenQuota, QuotaState, Reservation, current, reserve, settle}
use autotree.Serve.Quota.Ledger.{
  Ledger, Settlement, of_window, call_reserve, call_settle, Reach, here, next, start,
}
use autotree.Serve.Quota.Cases.{
  without_limit, within, beyond, refunded, ignored, reserve-cases, settle-cases,
}
use autotree.Serve.Quota.Window.{IsBalanced, reserve-IsBalanced}
use autotree.Serve.Quota.Refunds.{refund-IsBalanced, others-IsBalanced, ignored-IsBalanced}

settle-IsBalanced :
    (l : Ledger) (tenant : Text) (limit : ℕ) (before : List Reservation) (r : Reservation)
    (after : List Reservation) (actual : ℤ)
    → find tenant l.quota.limits ≡ some limit
    → IsBalanced tenant (find tenant l.quota.states) (before ++ r ∷ after) l.closed
    → IsBalanced tenant
        (find tenant (settle r actual l.quota).states)
        (before ++ after)
        (record { reservation = r; actual = actual } ∷ l.closed)
settle-IsBalanced l tenant limit before r after actual has b =
    elim (settle-cases r actual l.quota) [
      | refunded s known same e ↦ rw e (
          store-cases
            (λ o.
              IsBalanced tenant o (before ++ after)
                (record { reservation = r; actual = actual } ∷ l.closed))
            tenant r.tenant _ _
            (λ own.
              refund-IsBalanced tenant before r after actual l.closed s
                (ap (λ t. same_text t tenant) own ∙ same_text_refl tenant) same
                (subst (λ o. IsBalanced tenant o (before ++ r ∷ after) l.closed)
                  (ap (λ t. find t l.quota.states) (sym own) ∙ known) b))
            (λ other. others-IsBalanced tenant before r after actual l.closed _ other b))
      | ignored e old ↦ rw e (elim (Bool-cases (same_text r.tenant tenant)) [
        | inl own ↦
            let is = same_text_sound r.tenant tenant own in
            ignored-IsBalanced tenant before r after actual l.closed _ own
              (λ s at.
                old limit s (ap (λ t. find t l.quota.limits) is ∙ has)
                  (ap (λ t. find t l.quota.states) is ∙ at))
              b
        | inr other ↦ others-IsBalanced tenant before r after actual l.closed _ other b
      ])
    ]

module _ (second : ℕ) where
  reserve-limits :
      (u : Text) (requested now : ℕ) (q : TokenQuota)
      → ((reserve second u requested now q).1.limits ≡ q.limits)
        × ((reserve second u requested now q).1.window_seconds ≡ q.window_seconds)
  reserve-limits u requested now q = elim (reserve-cases second u requested now q) [
    | without_limit why e ↦ rw e (refl, refl)
    | within limit has fits e ↦ rw e (refl, refl)
    | beyond limit has over e ↦ rw e (refl, refl)
  ]

  settle-limits :
      (r : Reservation) (actual : ℤ) (q : TokenQuota)
      → ((settle r actual q).limits ≡ q.limits)
        × ((settle r actual q).window_seconds ≡ q.window_seconds)
  settle-limits r actual q = elim (settle-cases r actual q) [
    | refunded s known same e ↦ rw e (refl, refl)
    | ignored e old ↦ rw e (refl, refl)
  ]

  module _ (limits : Table ℕ) (seconds now : ℕ) where
    Reach-limits :
        (l : Ledger)
        → Reach second (start limits seconds now) l
        → (l.quota.limits ≡ limits) × (l.quota.window_seconds ≡ seconds)
    Reach-limits l here = (refl, refl)
    Reach-limits l (next before (call_reserve t u requested later h)) =
        let (a, b) = reserve-limits u requested later t.quota in
        let (c, d) = Reach-limits t before in (a ∙ c, b ∙ d)
    Reach-limits l (next before (call_settle t front r back actual at)) =
        let (a, b) = settle-limits r actual t.quota in
        let (c, d) = Reach-limits t before in (a ∙ c, b ∙ d)

    -- For every tenant with a limit, after any run of calls on a new quota whose window is not empty, in
    -- whatever order reservations are settled and windows elapse: `used` is what the tenant's open
    -- reservations of the current window hold plus what was settled in it, so `settle` never cuts
    -- off below zero; and no later window has been touched.
    pub Reach-IsBalanced :
        (l : Ledger) (tenant : Text) (limit : ℕ)
        → 0 < second
        → 0 < seconds
        → find tenant limits ≡ some limit
        → Reach second (start limits seconds now) l
        → IsBalanced tenant (find tenant l.quota.states) l.pending l.closed
    Reach-IsBalanced l tenant limit h k has here = λ w. (refl, refl)
    Reach-IsBalanced l tenant limit h k has (next before (call_reserve t u requested later m)) =
        reserve-IsBalanced second t tenant u requested later
          (rw ((Reach-limits t before).1) (grind arith))
          (Reach-IsBalanced t tenant limit h k has before)
    Reach-IsBalanced l tenant limit h k has (next before (call_settle t front r back actual at)) =
        settle-IsBalanced t tenant limit front r back actual
          (ap (find tenant) ((Reach-limits t before).0) ∙ has)
          (subst (λ p. IsBalanced tenant (find tenant t.quota.states) p t.closed) at
            (Reach-IsBalanced t tenant limit h k has before))

-- what a tenant was charged in a window beyond what its reservations held
abbrev overspent : Text → ℕ → List Settlement → ℕ
overspent tenant w [] = 0
overspent tenant w (c ∷ cs) =
    (if of_window tenant w c.reservation
      then at_least_zero c.actual - c.reservation.reserved
      else 0)
    + overspent tenant w cs

abbrev pub IsBounded : Text → ℕ → List Settlement → Option QuotaState → Type 0
IsBounded tenant limit closed none = Unit {0}
IsBounded tenant limit closed (some s) = s.used ≤ limit + overspent tenant s.window_started closed

IsBounded-closed :
    (tenant : Text) (limit : ℕ) (c : Settlement) (cs : List Settlement) (o : Option QuotaState)
    → IsBounded tenant limit cs o
    → IsBounded tenant limit (c ∷ cs) o
IsBounded-closed tenant limit c cs none b = tt
IsBounded-closed tenant limit c cs (some s) b = omega (arith, b)

module _ (second : ℕ) where
  current-IsBounded :
      (q : TokenQuota) (now limit : ℕ) (tenant : Text) (closed : List Settlement)
      (o : Option QuotaState)
      → IsBounded tenant limit closed o
      → IsBounded tenant limit closed (some (current second q now o))
  current-IsBounded q now limit tenant closed none b = omega arith
  current-IsBounded q now limit tenant closed (some s) b = ground (arith, b)

  reserve-IsBounded :
      (q : TokenQuota) (tenant u : Text) (requested now limit : ℕ) (closed : List Settlement)
      → find tenant q.limits ≡ some limit
      → IsBounded tenant limit closed (find tenant q.states)
      → IsBounded tenant limit closed (find tenant ((reserve second u requested now q).1.states))
  reserve-IsBounded q tenant u requested now limit closed has b =
      elim (reserve-cases second u requested now q) [
        | without_limit why e ↦ rw e b
        | within l found fits e ↦ rw e (
            store-cases (IsBounded tenant limit closed) tenant u _ _
              (λ same.
                let one = some-injective (sym found ∙ ap (λ t. find t q.limits) same ∙ has) in
                omega (arith, fits, one))
              (λ other. b))
        | beyond l found over e ↦ rw e (
            store-cases (IsBounded tenant limit closed) tenant u _ _
              (λ same.
                current-IsBounded q now limit tenant closed _
                  (subst (λ v. IsBounded tenant limit closed (find v q.states)) (sym same) b))
              (λ other. b))
      ]

settle-IsBounded :
    (q : TokenQuota) (tenant : Text) (r : Reservation) (actual : ℤ) (limit : ℕ)
    (closed : List Settlement)
    → IsBounded tenant limit closed (find tenant q.states)
    → IsBounded tenant limit
        (record { reservation = r; actual = actual } ∷ closed)
        (find tenant (settle r actual q).states)
settle-IsBounded q tenant r actual limit closed b = elim (settle-cases r actual q) [
  | refunded s known same e ↦ rw e (
      store-cases (IsBounded tenant limit (record { reservation = r; actual = actual } ∷ closed))
        tenant r.tenant _ _
        (λ own.
          let b' =
            subst (IsBounded tenant limit closed) (ap (λ t. find t q.states) (sym own) ∙ known) b in
          let its : of_window tenant s.window_started r ≡ true =
            let mine = ap (λ t. same_text t tenant) own ∙ same_text_refl tenant in
            ground (arith, mine, same) in
          rw its (omega (arith, b')))
        (λ other.
          IsBounded-closed tenant limit (record { reservation = r; actual = actual }) closed _ b))
  | ignored e old ↦
      rw e (IsBounded-closed tenant limit (record { reservation = r; actual = actual }) closed _ b)
]

-- After any run of calls on a new quota, whatever the reservations are settled with, a tenant with a
-- limit has used at most that limit in the current window, and beyond it no more than what its
-- settlements of the window exceeded their reservations by.
pub Reach-IsBounded :
    (second : ℕ) (limits : Table ℕ) (seconds now : ℕ) (l : Ledger) (tenant : Text) (limit : ℕ)
    → find tenant limits ≡ some limit
    → Reach second (start limits seconds now) l
    → IsBounded tenant limit l.closed (find tenant l.quota.states)
Reach-IsBounded second limits seconds now l tenant limit has here = tt
Reach-IsBounded second limits seconds now l tenant limit has
      (next before (call_reserve t u requested later m)) =
    reserve-IsBounded second t.quota tenant u requested later limit t.closed
      (ap (find tenant) ((Reach-limits second limits seconds now t before).0) ∙ has)
      (Reach-IsBounded second limits seconds now t tenant limit has before)
Reach-IsBounded second limits seconds now l tenant limit has
      (next before (call_settle t front r back actual at)) =
    settle-IsBounded t.quota tenant r actual limit t.closed
      (Reach-IsBounded second limits seconds now t tenant limit has before)
