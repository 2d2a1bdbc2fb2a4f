-- ===== src/Serve/Runner.antt =====
-- `EngineRunner` of serve/autotree_serve/runner.py. The event loop runs one task between two awaits; a
-- step is what one call of `generate` does from one await to the next, and any task may go next. The
-- engine and the worker thread are left out: a generation that runs may end at any time, by return,
-- by an error or by cancellation, and passes the same `finally` blocks.
pub mod Slots
pub mod Drain
mod Tests
use autotree.Base.{
  ℕ, zero, suc, ◌+◌, ◌-◌, ◌*◌, ◌<◌, ◌≡◌, Bool, true, false, List, [], ◌∷◌, ◌++◌, leb, ◌==◌,
  if◌then◌else◌,
}

-- a call of `generate` that was admitted: it waits for a slot, counted as queued or not, or it runs
pub data Task : Type 0 where
  waiting : (queued : Bool) → Task
  running : Task

pub record Runner : Type 0 where
  pub max_concurrent_requests : ℕ
  -- the value of the semaphore
  pub generation_slots : ℕ
  pub accepting : Bool
  pub active_generations : ℕ
  pub in_flight_generations : ℕ
  pub queued_generations : ℕ
  pub drained : Bool
  pub concurrency_rejections : ℕ
  -- the gauges of the metrics
  pub in_flight_requests : ℕ
  pub queued_requests : ℕ
  pub tasks : List Task

abbrev pub new_runner : ℕ → Runner
new_runner n = record {
  max_concurrent_requests = n;
  generation_slots = n;
  accepting = true;
  active_generations = 0;
  in_flight_generations = 0;
  queued_generations = 0;
  drained = true;
  concurrency_rejections = 0;
  in_flight_requests = 0;
  queued_requests = 0;
  tasks = [];
}

-- `_update_concurrency_metrics`
abbrev update_metrics : Runner → Runner
update_metrics r = record r {
  in_flight_requests = r.in_flight_generations;
  queued_requests = r.queued_generations;
}

abbrev enqueue : Bool → Runner → Runner
enqueue false r = r
enqueue true r = update_metrics (record r { queued_generations = suc r.queued_generations })

abbrev admitted : Bool → Runner → Runner
admitted queued r = enqueue queued (record r {
  active_generations = suc r.active_generations;
  drained = false;
  tasks = waiting queued ∷ r.tasks;
})

-- `generate` up to the wait for a slot
unfoldable pub enter : Runner → Runner
enter r =
    if r.accepting
    then admitted (leb r.max_concurrent_requests r.in_flight_generations) r
    else record r { concurrency_rejections = suc r.concurrency_rejections }

-- the inner `finally` after the wait
abbrev dequeue : Bool → Runner → Runner
dequeue false r = r
dequeue true r = update_metrics (record r { queued_generations = r.queued_generations - 1 })

-- the slot is acquired
unfoldable pub acquire : Bool → List Task → Runner → Runner
acquire queued tasks r =
    let r' = dequeue queued (record r { generation_slots = r.generation_slots - 1 }) in
    update_metrics
      (record r' { in_flight_generations = suc r'.in_flight_generations; tasks = tasks })

-- the outer `finally`
abbrev leave : Runner → Runner
leave r = record r {
  active_generations = r.active_generations - 1;
  drained = if r.active_generations - 1 == 0 then true else r.drained;
}

-- the wait is cancelled
unfoldable pub cancel : Bool → List Task → Runner → Runner
cancel queued tasks r = leave (dequeue queued (record r { tasks = tasks }))

-- a generation ends
unfoldable pub complete : List Task → Runner → Runner
complete tasks r =
    let r' = update_metrics (record r { in_flight_generations = r.in_flight_generations - 1 }) in
    leave (record r' { generation_slots = suc r'.generation_slots; tasks = tasks })

abbrev pub shut_down : Runner → Runner
shut_down r = record r { accepting = false }

pub data Step : Runner → Runner → Type 0 where
  entered : (r : Runner) → Step r (enter r)
  acquired :
      (r : Runner) (queued : Bool) (before after : List Task)
      → r.tasks ≡ before ++ waiting queued ∷ after
      → 0 < r.generation_slots
      → Step r (acquire queued (before ++ running ∷ after) r)
  cancelled :
      (r : Runner) (queued : Bool) (before after : List Task)
      → r.tasks ≡ before ++ waiting queued ∷ after
      → Step r (cancel queued (before ++ after) r)
  completed :
      (r : Runner) (before after : List Task)
      → r.tasks ≡ before ++ running ∷ after
      → Step r (complete (before ++ after) r)
  shutting_down : (r : Runner) → Step r (shut_down r)

pub data Reach (s : Runner) : Runner → Type 0 where
  here : Reach s s
  next : {r t : Runner} → Reach s r → Step r t → Reach s t
