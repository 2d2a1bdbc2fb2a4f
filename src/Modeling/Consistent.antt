-- ===== src/Modeling/Consistent.antt =====
-- The invariant of a `ModelExecution`: its dicts name the live branches, and the token ids of a
-- branch are as many as the tokens that the tree holds for it.
use autotree.Base.{
  ℕ, ◌≡◌, Bool, true, false, Option, none, some, List, length, arith, get, inl, inr, Option-cases,
}
use autotree.Kv.Tree.Valid.{IsValid}
use autotree.Kv.Tree.View.{Node, view}
use autotree.Modeling.{Execution}

abbrev pub node_size : Option Node → Option ℕ
node_size none = none
node_size (some n) = some (length n.rows)

abbrev ids_size : Option (List ℕ) → Option ℕ
ids_size none = none
ids_size (some ids) = some (length ids)

abbrev pub is_some {ℓ} : {A : Type ℓ} → Option A → Bool
is_some none = false
is_some (some a) = true

pub record IsConsistent {L : Type 0} (e : Execution L) : Type 0 where
  pub valid : IsValid e.tree
  pub tokens : (i : ℕ) → ids_size (get i e.token_ids) ≡ node_size (view e.tree i)
  pub logits : (i : ℕ) → is_some (get i e.next_logits) ≡ is_some (view e.tree i)

module _ {L : Type 0} (e : Execution L) (i : ℕ) (c : IsConsistent e) where
  -- a live branch has its token ids and its logits
  pub live_ids :
      (n : Node)
      → view e.tree i ≡ some n
      → (ids : List ℕ) × (get i e.token_ids ≡ some ids) × (length ids ≡ length n.rows)
  live_ids n live = elim (Option-cases (get i e.token_ids)) [
    | inl gone ↦ ground (arith, gone, live, c.tokens i)
    | inr (ids, there) ↦ (ids, there, ground (arith, there, live, c.tokens i))
  ]

  pub live_logits : (n : Node) → view e.tree i ≡ some n → (l : L) × (get i e.next_logits ≡ some l)
  live_logits n live = elim (Option-cases (get i e.next_logits)) [
    | inl gone ↦ ground (arith, gone, live, c.logits i)
    | inr (l, there) ↦ (l, there)
  ]
