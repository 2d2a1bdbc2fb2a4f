-- ===== src/Serve/Runner/Slots.antt =====
-- The counters of the runner are those of its tasks.
use autotree.Base.{
  ℕ, suc, ◌+◌, ◌<◌, ◌≡◌, refl, ap, inl, inr, Bool, true, false, List, [], ◌∷◌, ◌++◌, leb, ◌==◌,
  arith, Bool-cases,
}
use autotree.Serve.Runner.{
  Task, waiting, running, Runner, new_runner, enter, acquire, cancel, complete, entered, acquired,
  cancelled, completed, shutting_down, Reach, here, next,
}

abbrev pub waiting_tasks : List Task → ℕ
waiting_tasks [] = 0
waiting_tasks (waiting q ∷ ts) = suc (waiting_tasks ts)
waiting_tasks (running ∷ ts) = waiting_tasks ts

abbrev queued_tasks : List Task → ℕ
queued_tasks [] = 0
queued_tasks (waiting true ∷ ts) = suc (queued_tasks ts)
queued_tasks (waiting false ∷ ts) = queued_tasks ts
queued_tasks (running ∷ ts) = queued_tasks ts

abbrev pub running_tasks : List Task → ℕ
running_tasks [] = 0
running_tasks (waiting q ∷ ts) = running_tasks ts
running_tasks (running ∷ ts) = suc (running_tasks ts)

pub counts-append :
    (xs ys : List Task)
    → (waiting_tasks (xs ++ ys) ≡ waiting_tasks xs + waiting_tasks ys)
      × (queued_tasks (xs ++ ys) ≡ queued_tasks xs + queued_tasks ys)
      × (running_tasks (xs ++ ys) ≡ running_tasks xs + running_tasks ys)
counts-append [] ys = (omega arith, omega arith, omega arith)
counts-append (waiting true ∷ xs) ys =
    let (a, b, c) = counts-append xs ys in (omega (arith, a), omega (arith, b), omega (arith, c))
counts-append (waiting false ∷ xs) ys =
    let (a, b, c) = counts-append xs ys in (omega (arith, a), omega (arith, b), omega (arith, c))
counts-append (running ∷ xs) ys =
    let (a, b, c) = counts-append xs ys in (omega (arith, a), omega (arith, b), omega (arith, c))

pub record IsCoherent (n : ℕ) (r : Runner) : Type 0 where
  pub limit : r.max_concurrent_requests ≡ n
  pub slots : r.generation_slots + r.in_flight_generations ≡ n
  pub in_flight : r.in_flight_generations ≡ running_tasks r.tasks
  pub queued : r.queued_generations ≡ queued_tasks r.tasks
  pub active : r.active_generations ≡ waiting_tasks r.tasks + running_tasks r.tasks
  pub drained : r.drained ≡ (r.active_generations == 0)

enter-IsCoherent : (n : ℕ) (r : Runner) → IsCoherent n r → IsCoherent n (enter r)
unfolding enter
enter-IsCoherent n r k = elim (Bool-cases r.accepting) [
  | inr closed ↦ rw closed (record {
    limit = k.limit;
    slots = k.slots;
    in_flight = k.in_flight;
    queued = k.queued;
    active = k.active;
    drained = k.drained;
  })
  | inl accepts ↦ elim (Bool-cases (leb r.max_concurrent_requests r.in_flight_generations)) [
    | inl full ↦ rw accepts (
        rw full (record {
          limit = k.limit;
          slots = k.slots;
          in_flight = k.in_flight;
          queued = omega (arith, k.queued);
          active = omega (arith, k.active);
          drained = ground arith;
        }))
    | inr free ↦ rw accepts (
        rw free (record {
          limit = k.limit;
          slots = k.slots;
          in_flight = k.in_flight;
          queued = k.queued;
          active = omega (arith, k.active);
          drained = ground arith;
        }))
  ]
]

module _ (n : ℕ) (r : Runner) (k : IsCoherent n r) (before after : List Task) where
  acquire-IsCoherent :
      (q : Bool)
      → r.tasks ≡ before ++ waiting q ∷ after
      → 0 < r.generation_slots
      → IsCoherent n (acquire q (before ++ running ∷ after) r)
  unfolding acquire
  acquire-IsCoherent true at free =
      let (a, b, c) = counts-append before (waiting true ∷ after) in
      let (d, e, f) = counts-append before (running ∷ after) in
      record {
        limit = k.limit;
        slots = omega (arith, k.slots, free);
        in_flight = omega (arith, k.in_flight, ap running_tasks at, c, f);
        queued = omega (arith, k.queued, ap queued_tasks at, b, e);
        active = omega (arith, k.active, ap waiting_tasks at, ap running_tasks at, a, c, d, f);
        drained = k.drained;
      }
  acquire-IsCoherent false at free =
      let (a, b, c) = counts-append before (waiting false ∷ after) in
      let (d, e, f) = counts-append before (running ∷ after) in
      record {
        limit = k.limit;
        slots = omega (arith, k.slots, free);
        in_flight = omega (arith, k.in_flight, ap running_tasks at, c, f);
        queued = omega (arith, k.queued, ap queued_tasks at, b, e);
        active = omega (arith, k.active, ap waiting_tasks at, ap running_tasks at, a, c, d, f);
        drained = k.drained;
      }

  cancel-IsCoherent :
      (q : Bool)
      → r.tasks ≡ before ++ waiting q ∷ after
      → IsCoherent n (cancel q (before ++ after) r)
  unfolding cancel
  cancel-IsCoherent true at =
      let (a, b, c) = counts-append before (waiting true ∷ after) in
      let (d, e, f) = counts-append before after in
      record {
        limit = k.limit;
        slots = k.slots;
        in_flight = omega (arith, k.in_flight, ap running_tasks at, c, f);
        queued = omega (arith, k.queued, ap queued_tasks at, b, e);
        active = omega (arith, k.active, ap waiting_tasks at, ap running_tasks at, a, c, d, f);
        drained = ground (arith, k.drained, k.active, ap waiting_tasks at, a);
      }
  cancel-IsCoherent false at =
      let (a, b, c) = counts-append before (waiting false ∷ after) in
      let (d, e, f) = counts-append before after in
      record {
        limit = k.limit;
        slots = k.slots;
        in_flight = omega (arith, k.in_flight, ap running_tasks at, c, f);
        queued = omega (arith, k.queued, ap queued_tasks at, b, e);
        active = omega (arith, k.active, ap waiting_tasks at, ap running_tasks at, a, c, d, f);
        drained = ground (arith, k.drained, k.active, ap waiting_tasks at, a);
      }

  complete-IsCoherent :
      r.tasks ≡ before ++ running ∷ after → IsCoherent n (complete (before ++ after) r)
  unfolding complete
  complete-IsCoherent at =
      let (a, b, c) = counts-append before (running ∷ after) in
      let (d, e, f) = counts-append before after in
      record {
        limit = k.limit;
        slots = omega (arith, k.slots, k.in_flight, ap running_tasks at, c);
        in_flight = omega (arith, k.in_flight, ap running_tasks at, c, f);
        queued = omega (arith, k.queued, ap queued_tasks at, b, e);
        active = omega (arith, k.active, ap waiting_tasks at, ap running_tasks at, a, c, d, f);
        drained = ground (arith, k.drained, k.active, ap running_tasks at, c);
      }

-- In whatever order tasks enter, get a slot, are cancelled, end and the runner is shut down: the free slots
-- and the generations in flight add up to the limit, so no more run at once; the counters of running,
-- queued and admitted generations are those of the tasks; and the runner is drained exactly where no
-- generation is active.
pub Reach-IsCoherent : (n : ℕ) (r : Runner) → Reach (new_runner n) r → IsCoherent n r
Reach-IsCoherent n r here = record {
  limit = refl;
  slots = omega arith;
  in_flight = refl;
  queued = refl;
  active = refl;
  drained = refl;
}
Reach-IsCoherent n r (next reached (entered s)) =
    enter-IsCoherent n s (Reach-IsCoherent n s reached)
Reach-IsCoherent n r (next reached (acquired s q before after at free)) =
    acquire-IsCoherent n s (Reach-IsCoherent n s reached) before after q at free
Reach-IsCoherent n r (next reached (cancelled s q before after at)) =
    cancel-IsCoherent n s (Reach-IsCoherent n s reached) before after q at
Reach-IsCoherent n r (next reached (completed s before after at)) =
    complete-IsCoherent n s (Reach-IsCoherent n s reached) before after at
Reach-IsCoherent n r (next reached (shutting_down s)) =
    let k = Reach-IsCoherent n s reached in
    record {
      limit = k.limit;
      slots = k.slots;
      in_flight = k.in_flight;
      queued = k.queued;
      active = k.active;
      drained = k.drained;
    }
