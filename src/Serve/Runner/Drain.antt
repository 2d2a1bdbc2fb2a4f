-- ===== src/Serve/Runner/Drain.antt =====
-- `shutdown` waits for the admitted generations: they can always go on, and they come to an end.
use autotree.Base.{
  ℕ, ◌+◌, ◌<◌, ◌≡◌, refl, ap, ◌⊎◌, inl, inr, Bool, true, false, List, [], ◌∷◌, ◌++◌, arith,
}
use native.Mathlib.Decide.{dec_lt}
use autotree.Serve.Runner.{
  Task, waiting, running, Runner, new_runner, enter, acquire, cancel, complete, Step, entered,
  acquired, cancelled, completed, shutting_down, Reach,
}
use autotree.Serve.Runner.Slots.{
  waiting_tasks, running_tasks, counts-append, IsCoherent, Reach-IsCoherent,
}

-- the steps that the tasks have before them: a slot and an end, or an end
abbrev pub work : List Task → ℕ
work ts = waiting_tasks ts + waiting_tasks ts + running_tasks ts

find_running :
    (ts : List Task)
    → 0 < running_tasks ts
    → (before : List Task) × ((after : List Task) × (ts ≡ before ++ running ∷ after))
find_running [] h = absurd (omega arith)
find_running (running ∷ ts) h = ([], (ts, refl))
find_running (waiting q ∷ ts) h =
    let (before, (after, e)) = find_running ts h in
    (waiting q ∷ before, (after, ap (◌∷◌ (waiting q)) e))

find_waiting :
    (ts : List Task)
    → 0 < waiting_tasks ts
    → (q : Bool) × ((before : List Task) × ((after : List Task) × (ts
            ≡ before ++ waiting q ∷ after)))
find_waiting [] h = absurd (omega arith)
find_waiting (waiting q ∷ ts) h = (q, ([], (ts, refl)))
find_waiting (running ∷ ts) h =
    let (q, (before, (after, e))) = find_waiting ts h in
    (q, (running ∷ before, (after, ap (◌∷◌ running) e)))

-- a generation can end, or a waiting one can have a slot
abbrev pub CanGoOn : Runner → Type 0
CanGoOn r =
    ((before : List Task) × ((after : List Task) × (r.tasks ≡ before ++ running ∷ after)))
    ⊎ ((0 < r.generation_slots)
        × ((q : Bool) × ((before : List Task) × ((after : List Task) × (r.tasks
                  ≡ before ++ waiting q ∷ after)))))

module _ (n : ℕ) (r : Runner) where
  goes_on : 0 < n → IsCoherent n r → r.drained ≡ false → CanGoOn r
  goes_on h k busy = elim (dec_lt 0 (running_tasks r.tasks)) [
    | yes some_run ↦ inl (find_running r.tasks some_run)
    | no none_run ↦ inr (
      omega (arith, k.slots, k.in_flight),
      find_waiting r.tasks (ground (arith, k.drained, k.active)),
    )
  ]

  less_work :
      (t : Runner)
      → r.accepting ≡ false
      → Step r t
      → (t.tasks ≡ r.tasks) ⊎ (work t.tasks < work r.tasks)
  unfolding enter acquire cancel complete
  less_work t closed (entered r) = inl (rw closed refl)
  less_work t closed (acquired r true before after at free) =
      let (a, b, c) = counts-append before (waiting true ∷ after) in
      let (d, e, f) = counts-append before (running ∷ after) in
      inr (omega (arith, ap waiting_tasks at, ap running_tasks at, a, c, d, f))
  less_work t closed (acquired r false before after at free) =
      let (a, b, c) = counts-append before (waiting false ∷ after) in
      let (d, e, f) = counts-append before (running ∷ after) in
      inr (omega (arith, ap waiting_tasks at, ap running_tasks at, a, c, d, f))
  less_work t closed (cancelled r true before after at) =
      let (a, b, c) = counts-append before (waiting true ∷ after) in
      let (d, e, f) = counts-append before after in
      inr (omega (arith, ap waiting_tasks at, ap running_tasks at, a, c, d, f))
  less_work t closed (cancelled r false before after at) =
      let (a, b, c) = counts-append before (waiting false ∷ after) in
      let (d, e, f) = counts-append before after in
      inr (omega (arith, ap waiting_tasks at, ap running_tasks at, a, c, d, f))
  less_work t closed (completed r before after at) =
      let (a, b, c) = counts-append before (running ∷ after) in
      let (d, e, f) = counts-append before after in
      inr (omega (arith, ap waiting_tasks at, ap running_tasks at, a, c, d, f))
  less_work t closed (shutting_down r) = inl refl

  -- A runner with a positive limit that is shut down and not yet drained is never stuck: a generation can
  -- end, or a slot is free for one that waits; and every step leaves its tasks as they are or leaves less
  -- of them to do.
  pub Reach-drains :
      0 < n
      → Reach (new_runner n) r
      → r.accepting ≡ false
      → r.drained ≡ false
      → CanGoOn r × ((t : Runner) → Step r t → (t.tasks ≡ r.tasks) ⊎ (work t.tasks < work r.tasks))
  Reach-drains h reached closed busy =
      (goes_on h (Reach-IsCoherent n r reached) busy, λ t step. less_work t closed step)
