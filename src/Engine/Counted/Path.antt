-- ===== src/Engine/Counted/Path.antt =====
-- The path to a branch: the loop of `_path` ends.
use autotree.Base.{
  ℕ, zero, suc, ◌<◌, ◌≡◌, refl, ap, subst, Option, none, some, List, [], ◌∷◌, get_last?, arith,
  Dict, get,
}
use autotree.Kv.Tree.{root_id}
use autotree.Modeling.{Execution}
use autotree.Engine.{done, ◌>>=◌, Host, Settings, Run, KvSnapshot}
use autotree.Engine.Rounds.{Reach}
use autotree.Engine.Winner.{path, path_up}
use autotree.Engine.Counted.Loop.{Reach-IsCounted}

-- each branch of the list has the one before it as its parent
abbrev IsChain : Dict (Option ℕ) → ℕ → List ℕ → Type 0
IsChain parents p [] = Unit {0}
IsChain parents p (i ∷ rest) = (get i parents ≡ some (some p)) × IsChain parents i rest

-- a path from the root that ends with the branch
abbrev pub IsPath : Dict (Option ℕ) → ℕ → List ℕ → Type 0
IsPath parents b ids =
    (rest : List ℕ) × (ids ≡ root_id ∷ rest)
    × IsChain parents root_id rest
    × (get_last? (root_id ∷ rest) ≡ some b)

module _ (parents : Dict (Option ℕ)) (b : ℕ)
    (older : (i p : ℕ)
      → get i parents ≡ some (some p)
      → (p < i) × ((q : Option ℕ) × (get p parents ≡ some q)))
    (rooted : (i : ℕ) → get i parents ≡ some none → i ≡ root_id) where
  path_up_ends :
      (fuel i : ℕ) (below : List ℕ) (q : Option ℕ)
      → i < fuel
      → get i parents ≡ some q
      → IsChain parents i below
      → get_last? (i ∷ below) ≡ some b
      → (ids : List ℕ) × (path_up fuel below i parents ≡ done ids) × IsPath parents b ids
  unfolding path_up ◌>>=◌
  path_up_ends zero i below q h here chain last = absurd (omega arith)
  path_up_ends (suc fuel) i below none h here chain last =
      let top = rooted i here in
      (
        i ∷ below,
        rw here refl,
        (
          below,
          ap (λ z. z ∷ below) top,
          subst (λ z. IsChain parents z below) top chain,
          subst (λ z. get_last? (z ∷ below) ≡ some b) top last,
        ),
      )
  path_up_ends (suc fuel) i below (some p) h here chain last =
      let (lower, (q, known)) = older i p here in
      let (ids, ends, is_path) =
        path_up_ends fuel p (i ∷ below) q (omega (arith, lower)) known (here, chain) last in
      (ids, rw here ends, is_path)

  path_ends :
      (q : Option ℕ)
      → get b parents ≡ some q
      → (ids : List ℕ) × (path b parents ≡ done ids) × IsPath parents b ids
  unfolding path
  path_ends q here = path_up_ends (suc b) b [] q (omega arith) here tt refl

module _ {L S G Sched : Type 0} (h : Host L S G Sched) (c : Settings S) (x : Execution L)
    (scheduler : Sched) (generator : G) (snapshot : KvSnapshot) where
  -- Whenever the loop of `generate` stands at the start of a round, the climb from any known branch along
  -- the parents ends, and yields the branches from the root down to that branch, each the parent of the
  -- next.
  pub path-IsPath :
      (e : Run L S G Sched) (b : ℕ) (q : Option ℕ)
      → Reach h c x scheduler generator snapshot e
      → get b e.parents ≡ some q
      → (ids : List ℕ) × (path b e.parents ≡ done ids) × IsPath e.parents b ids
  path-IsPath e b q reached here =
      let k = Reach-IsCounted h c x scheduler generator snapshot e reached in
      path_ends e.parents b k.older k.rooted q here
