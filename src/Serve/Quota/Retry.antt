-- ===== src/Serve/Quota/Retry.antt =====
-- What a refusal tells the caller: how long to wait.
use autotree.Base.{
  ℕ, ◌+◌, ◌-◌, ◌*◌, ◌≤◌, ◌<◌, ◌≡◌, refl, sym, ap, ◌∙◌, true, false, Option, none, some, ltb, leb,
  ◌==◌, arith, Text, same_text_refl, find, find-store, some-injective, none≢some, ceil_div_covers,
  ceil_div-mul, ceil_div_mono,
}
use autotree.Serve.Quota.{
  TokenQuota, QuotaState, QuotaExceeded, state_at, window, current, save, seconds_left, reserve,
  granted, exceeded, Answer,
}
use autotree.Serve.Quota.Cases.{without_limit, within, beyond, reserve-cases}

abbrev pub refused : Answer → Option QuotaExceeded
refused (exceeded e) = some e
refused _ = none

abbrev pub granted_tokens : Answer → ℕ
granted_tokens (granted r) = r.reserved
granted_tokens _ = 0

module _ (second : ℕ) where
  -- a state that stands for a time has not elapsed then
  current-runs :
      (q : TokenQuota) (now : ℕ) (o : Option QuotaState)
      → 0 < window second q
      → now - (current second q now o).window_started < window second q
  current-runs q now none h = omega arith
  current-runs q now (some s) h = ground arith

  seconds_left-covers :
      (q : TokenQuota) (now : ℕ) (s : QuotaState)
      → 0 < second
      → window second q ≤ now - s.window_started + seconds_left second q now s * second
  seconds_left-covers q now s h =
      let up = ceil_div_covers (window second q - (now - s.window_started)) second h in
      ground (arith, up)

  seconds_left-bounds :
      (q : TokenQuota) (now : ℕ) (s : QuotaState)
      → 0 < second
      → 0 < q.window_seconds
      → (1 ≤ seconds_left second q now s) × (seconds_left second q now s ≤ q.window_seconds)
  seconds_left-bounds q now s h k =
      let up =
        ceil_div_mono (window second q - (now - s.window_started)) (window second q) second h
          (omega arith) in
      let all = ceil_div-mul q.window_seconds second h in ground (arith, up, all)

  -- after the wait the stored state has elapsed
  elapsed :
      (q : TokenQuota) (tenant : Text) (s : QuotaState) (now later : ℕ)
      → find tenant q.states ≡ some s
      → window second q ≤ later - s.window_started
      → state_at second q tenant later ≡ record { window_started = later; used = 0 }
  elapsed q tenant s now later e h =
      let late : leb (window second q) (later - s.window_started) ≡ true = ground (arith, h) in
      rw e (rw late refl)

  -- the stored window did not start in the future, as the clock is monotonic
  abbrev IsPast : Option QuotaState → ℕ → Type 0
  IsPast none now = Unit {0}
  IsPast (some s) now = s.window_started ≤ now

  current-past :
      (q : TokenQuota) (now : ℕ) (o : Option QuotaState)
      → IsPast o now
      → (current second q now o).window_started ≤ now
  current-past q now none h = omega arith
  current-past q now (some s) h = ground (arith, h)

  -- a request that fits the limit is granted where a new window starts
  fresh-granted :
      (q : TokenQuota) (tenant : Text) (wanted later limit : ℕ)
      → find tenant q.limits ≡ some limit
      → 0 < wanted
      → wanted ≤ limit
      → (state_at second q tenant later).used ≡ 0
      → granted_tokens ((reserve second tenant wanted later q).0) ≡ wanted
  unfolding reserve
  fresh-granted q tenant wanted later limit has some_tokens fits new =
      let some' : (wanted == 0) ≡ false = ground arith in
      let fits' : ltb (limit - (state_at second q tenant later).used) wanted ≡ false =
        ground (arith, new) in
      rw has (rw some' (rw fits' refl))

  -- A refused request is told to wait for at least one second and at most the window, and the wait is
  -- enough: where `reserve` refuses and nothing else is called meanwhile, then after the `retry_after`
  -- seconds or more every positive number of tokens up to the limit is granted.
  pub reserve-retry :
      (q : TokenQuota) (tenant : Text) (requested now : ℕ) (e : QuotaExceeded)
      → 0 < second
      → 0 < q.window_seconds
      → IsPast (find tenant q.states) now
      → refused ((reserve second tenant requested now q).0) ≡ some e
      → (1 ≤ e.retry_after)
        × (e.retry_after ≤ q.window_seconds)
        × ((wanted later : ℕ)
            → 0 < wanted
            → wanted ≤ e.limit
            → now + e.retry_after * second ≤ later
            → granted_tokens
                ((reserve second tenant wanted later ((reserve second tenant requested now q).1)).0)
              ≡ wanted)
  reserve-retry q tenant requested now e h k past refusal =
      elim (reserve-cases second tenant requested now q) [
        | without_limit why r ↦ absurd (none≢some (sym (ap (λ out. refused (out.0)) r) ∙ refusal))
        | within limit has fits r ↦
            absurd (none≢some (sym (ap (λ out. refused (out.0)) r) ∙ refusal))
        | beyond limit has over r ↦
            let s = state_at second q tenant now in
            let is = some-injective (sym (ap (λ out. refused (out.0)) r) ∙ refusal) in
            let q' = save second tenant s q in
            let wait = seconds_left-bounds q now s h k in
            let retry : seconds_left second q now s ≡ e.retry_after = ap (λ x. x.retry_after) is in
            let top : limit ≡ e.limit = ap (λ x. x.limit) is in
            (
              omega (arith, wait, retry),
              omega (arith, wait, retry),
              λ wanted later some_tokens fits waited.
                  let enough : window second q ≤ later - s.window_started = omega (
                    arith,
                    waited,
                    ap (λ x. x * second) retry,
                    seconds_left-covers q now s h,
                    current-past q now (find tenant q.states) past,
                  ) in
                  rw r (
                    fresh-granted q' tenant wanted later limit has some_tokens
                      (omega (arith, top, fits))
                      (ap (λ z. z.used)
                        (elapsed q' tenant s now later
                          (find-store tenant tenant s q.states ∙ rw (same_text_refl tenant) refl)
                          enough))),
            )
      ]
