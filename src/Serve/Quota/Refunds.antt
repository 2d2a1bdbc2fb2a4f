-- ===== src/Serve/Quota/Refunds.antt =====
-- `settle` on the balance of a tenant, and the balance over any run of calls.
use autotree.Base.{
  ◌<◌, ◌≡◌, refl, true, false, Option, none, some, List, ◌∷◌, ◌++◌, ◌==◌, arith, Text, same_text, ℤ,
}
use autotree.Serve.Quota.{QuotaState, Reservation, with_refund}
use autotree.Serve.Quota.Ledger.{Settlement, held-removed, touches-removed}
use autotree.Serve.Quota.Window.{IsBalanced}

module _ (tenant : Text) (before : List Reservation) (r : Reservation) (after : List Reservation)
    (actual : ℤ) (cs : List Settlement) where
  pub refund-IsBalanced :
      (s : QuotaState)
      → same_text r.tenant tenant ≡ true
      → s.window_started ≡ r.window_started
      → IsBalanced tenant (some s) (before ++ r ∷ after) cs
      → IsBalanced tenant
          (some (with_refund r.reserved actual s))
          (before ++ after)
          (record { reservation = r; actual = actual } ∷ cs)
  refund-IsBalanced s own same b = (
    ground (arith, b.0, held-removed tenant s.window_started before r after),
    λ w later. (
      ground (arith, touches-removed tenant w before r after, (b.1 w later).0),
      ground (arith, (b.1 w later).1),
    ),
  )

  pub others-IsBalanced :
      (o : Option QuotaState)
      → same_text r.tenant tenant ≡ false
      → IsBalanced tenant o (before ++ r ∷ after) cs
      → IsBalanced tenant o (before ++ after) (record { reservation = r; actual = actual } ∷ cs)
  others-IsBalanced none other b = λ w.
      (ground (arith, touches-removed tenant w before r after, (b w).0), ground (arith, (b w).1))
  others-IsBalanced (some s) other b = (
    ground (arith, b.0, held-removed tenant s.window_started before r after),
    λ w later. (
      ground (arith, touches-removed tenant w before r after, (b.1 w later).0),
      ground (arith, (b.1 w later).1),
    ),
  )

  -- a reservation of an earlier window is no longer counted
  pub ignored-IsBalanced :
      (o : Option QuotaState)
      → same_text r.tenant tenant ≡ true
      → ((s : QuotaState) → o ≡ some s → (s.window_started == r.window_started) ≡ false)
      → IsBalanced tenant o (before ++ r ∷ after) cs
      → IsBalanced tenant o (before ++ after) (record { reservation = r; actual = actual } ∷ cs)
  ignored-IsBalanced none own h b = absurd (
      ground
        (arith, touches-removed tenant r.window_started before r after, (b r.window_started).0))
  ignored-IsBalanced (some s) own h b =
      let differs = h s refl in
      let earlier : r.window_started < s.window_started =
        ground
          (arith, touches-removed tenant r.window_started before r after, (b.1 r.window_started)) in
      (
        ground (arith, b.0, held-removed tenant s.window_started before r after),
        λ w later. (
          ground (arith, touches-removed tenant w before r after, (b.1 w later).0),
          ground (arith, (b.1 w later).1),
        ),
      )
