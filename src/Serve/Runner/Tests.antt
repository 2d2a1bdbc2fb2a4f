-- ===== src/Serve/Runner/Tests.antt =====
-- A runner with one slot that is shut down while a generation waits for it.
use autotree.Base.{◌≡◌, ◌<◌, ◌⊎◌, refl, arith}
use autotree.Serve.Runner.{
  Runner, new_runner, enter, shut_down, Step, entered, shutting_down, Reach, here, next,
}
use autotree.Serve.Runner.Slots.{IsCoherent, Reach-IsCoherent}
use autotree.Serve.Runner.Drain.{work, CanGoOn, Reach-drains}

abbrev closing : Runner
closing = shut_down (enter (new_runner 1))

reached : Reach (new_runner 1) closing
reached = next (next here (entered (new_runner 1))) (shutting_down (enter (new_runner 1)))

Reach-IsCoherent_example : IsCoherent 1 closing
Reach-IsCoherent_example = Reach-IsCoherent 1 closing reached

Reach-drains_example :
    CanGoOn closing
    × ((t : Runner)
        → Step closing t
        → (t.tasks ≡ closing.tasks) ⊎ (work t.tasks < work closing.tasks))
unfolding enter
Reach-drains_example = Reach-drains 1 closing (omega arith) reached refl refl
