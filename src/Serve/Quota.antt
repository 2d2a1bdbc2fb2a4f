-- ===== src/Serve/Quota.antt =====
-- `TokenQuota` of serve/autotree_serve/enterprise.py: fixed windows of generated tokens, by tenant.
-- The monotonic clock counts ticks, of which there are `second` in a second. The lock makes each
-- method one step.
pub mod Ledger
pub mod Cases
pub mod Window
pub mod Refunds
pub mod Run
pub mod Retry
use autotree.Base.{
  ℕ, suc, ◌+◌, ◌-◌, ◌*◌, Bool, true, false, not, ◌||◌, ◌&&◌, Option, none, some, [], ltb, leb, ◌==◌,
  if◌then◌else◌, ceil_div, Text, Table, find, store, ℤ, at_least_zero,
}

-- `_QuotaState`
pub record QuotaState : Type 0 where
  pub window_started : ℕ
  pub used : ℕ

-- what `settle` of a `QuotaReservation` hands back to the quota
pub record Reservation : Type 0 where
  pub tenant : Text
  pub reserved : ℕ
  pub window_started : ℕ

pub record QuotaExceeded : Type 0 where
  pub limit : ℕ
  pub remaining : ℕ
  pub retry_after : ℕ

pub record TokenQuota : Type 0 where
  pub limits : Table ℕ
  pub window_seconds : ℕ
  pub states : Table QuotaState

abbrev pub new_quota : Table ℕ → ℕ → TokenQuota
new_quota limits seconds = record { limits = limits; window_seconds = seconds; states = [] }

pub data Answer : Type 0 where
  unlimited : Answer
  granted : Reservation → Answer
  exceeded : QuotaExceeded → Answer

module _ (second : ℕ) where
  abbrev pub window : TokenQuota → ℕ
  window q = q.window_seconds * second

  -- the state of the window that `now` falls into, a new one where the old one has elapsed
  abbrev pub current : TokenQuota → ℕ → Option QuotaState → QuotaState
  current q now none = record { window_started = now; used = 0 }
  current q now (some s) =
      if leb (window q) (now - s.window_started)
      then record { window_started = now; used = 0 }
      else s

  abbrev pub state_at : TokenQuota → Text → ℕ → QuotaState
  state_at q tenant now = current q now (find tenant q.states)

  -- `max(1, math.ceil(window_seconds - (now - window_started)))`
  abbrev pub seconds_left : TokenQuota → ℕ → QuotaState → ℕ
  seconds_left q now s =
      let left = ceil_div (window q - (now - s.window_started)) second in
      if leb 1 left then left else 1

  abbrev pub save : Text → QuotaState → TokenQuota → TokenQuota
  save tenant s q = record q { states = store tenant s q.states }

  abbrev grant : Text → ℕ → ℕ → TokenQuota → ℕ → QuotaState → Answer × TokenQuota
  grant tenant requested now q limit s =
      if ltb (limit - s.used) requested
      then (
        exceeded (record {
          limit = limit;
          remaining = limit - s.used;
          retry_after = seconds_left q now s;
        }),
        save tenant s q,
      )
      else (
        granted
            (record { tenant = tenant; reserved = requested; window_started = s.window_started }),
        save tenant (record s { used = s.used + requested }) q,
      )

  abbrev reserve_within : Text → ℕ → ℕ → TokenQuota → Option ℕ → Answer × TokenQuota
  reserve_within tenant requested now q none = (unlimited, q)
  reserve_within tenant requested now q (some limit) =
      if requested == 0
      then (unlimited, q)
      else grant tenant requested now q limit (state_at q tenant now)

  -- no caller asks for a negative number
  unfoldable pub reserve : Text → ℕ → ℕ → TokenQuota → Answer × TokenQuota
  reserve tenant requested now q = reserve_within tenant requested now q (find tenant q.limits)

-- `max(0, used - reserved + max(0, actual))`
abbrev pub with_refund : ℕ → ℤ → QuotaState → QuotaState
with_refund reserved actual s = record s { used = s.used + at_least_zero actual - reserved }

abbrev settle_state : Text → ℕ → ℤ → ℕ → TokenQuota → Option QuotaState → TokenQuota
settle_state tenant reserved actual started q none = q
settle_state tenant reserved actual started q (some s) =
    if s.window_started == started
    then record q { states = store tenant (with_refund reserved actual s) q.states }
    else q

abbrev settle_within : Reservation → ℤ → TokenQuota → Option ℕ → TokenQuota
settle_within r actual q none = q
settle_within r actual q (some limit) =
    settle_state r.tenant r.reserved actual r.window_started q (find r.tenant q.states)

unfoldable pub settle : Reservation → ℤ → TokenQuota → TokenQuota
settle r actual q = settle_within r actual q (find r.tenant q.limits)
