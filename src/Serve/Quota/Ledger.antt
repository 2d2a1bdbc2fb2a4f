-- ===== src/Serve/Quota/Ledger.antt =====
-- Any run of calls on one `TokenQuota`: which reservations are pending, and what was settled.
use autotree.Base.{
  ℕ, ◌+◌, ◌≤◌, ◌≡◌, refl, Bool, false, ◌&&◌, ◌||◌, arith, List, [], ◌∷◌, ◌++◌, ◌==◌, if◌then◌else◌,
  Text, same_text, Table, ℤ, at_least_zero,
}
use autotree.Serve.Quota.{
  TokenQuota, Reservation, Answer, unlimited, granted, exceeded, reserve, settle, new_quota,
}

pub record Settlement : Type 0 where
  pub reservation : Reservation
  pub actual : ℤ

pub record Ledger : Type 0 where
  pub quota : TokenQuota
  pub clock : ℕ
  pub pending : List Reservation
  pub closed : List Settlement

abbrev pub opened : Answer → List Reservation → List Reservation
opened unlimited rs = rs
opened (granted r) rs = r ∷ rs
opened (exceeded e) rs = rs

-- `reserve` is called at any later time, and a reservation is settled once, in any order
pub data Step (second : ℕ) : Ledger → Ledger → Type 0 where
  call_reserve :
      (l : Ledger) (tenant : Text) (requested now : ℕ)
      → l.clock ≤ now
      → Step second l (record {
        quota = (reserve second tenant requested now l.quota).1;
        clock = now;
        pending = opened ((reserve second tenant requested now l.quota).0) l.pending;
        closed = l.closed;
      })
  call_settle :
      (l : Ledger) (before : List Reservation) (r : Reservation) (after : List Reservation)
      (actual : ℤ)
      → l.pending ≡ before ++ r ∷ after
      → Step second l (record l {
        quota = settle r actual l.quota;
        pending = before ++ after;
        closed = record { reservation = r; actual = actual } ∷ l.closed;
      })

pub data Reach (second : ℕ) (s : Ledger) : Ledger → Type 0 where
  here : Reach second s s
  next : {t u : Ledger} → Reach second s t → Step second t u → Reach second s u

abbrev pub start : Table ℕ → ℕ → ℕ → Ledger
start limits seconds now = record {
  quota = new_quota limits seconds;
  clock = now;
  pending = [];
  closed = [];
}

-- a reservation that a tenant made in the window that started then
abbrev pub of_window : Text → ℕ → Reservation → Bool
of_window tenant started r = same_text r.tenant tenant && r.window_started == started

abbrev pub held : Text → ℕ → List Reservation → ℕ
held tenant started [] = 0
held tenant started (r ∷ rs) =
    (if of_window tenant started r then r.reserved else 0) + held tenant started rs

abbrev pub spent : Text → ℕ → List Settlement → ℕ
spent tenant started [] = 0
spent tenant started (c ∷ cs) =
    (if of_window tenant started c.reservation then at_least_zero c.actual else 0)
    + spent tenant started cs

abbrev pub touches : Text → ℕ → List Reservation → Bool
touches tenant started [] = false
touches tenant started (r ∷ rs) = of_window tenant started r || touches tenant started rs

-- what the removal of one reservation takes away
pub held-removed :
    (tenant : Text) (w : ℕ) (before : List Reservation) (r : Reservation) (after : List Reservation)
    → held tenant w (before ++ r ∷ after)
      ≡ (if of_window tenant w r then r.reserved else 0) + held tenant w (before ++ after)
held-removed tenant w [] r after = refl
held-removed tenant w (b ∷ before) r after = omega (arith, held-removed tenant w before r after)

pub touches-removed :
    (tenant : Text) (w : ℕ) (before : List Reservation) (r : Reservation) (after : List Reservation)
    → touches tenant w (before ++ r ∷ after)
      ≡ (of_window tenant w r || touches tenant w (before ++ after))
touches-removed tenant w [] r after = refl
touches-removed tenant w (b ∷ before) r after =
    ground (arith, touches-removed tenant w before r after)

pub held-untouched :
    (tenant : Text) (w : ℕ) (rs : List Reservation)
    → touches tenant w rs ≡ false
    → held tenant w rs ≡ 0
held-untouched tenant w [] h = refl
held-untouched tenant w (r ∷ rs) h = ground (arith, held-untouched tenant w rs)
