-- ===== src/Modeling/Prefill.antt =====
-- `prefill` (modeling/executor.py): the execution that a prompt begins with.
use autotree.Base.{
  ℕ, ◌<◌, ◌≡◌, refl, ap, sym, ◌∙◌, subst, true, false, none, some, List, [], ◌∷◌, length, ◌==◌, get,
  inl, inr, Bool-cases,
}
use autotree.Kv.Errors.{ok-injective, value_error, Result, ok}
use autotree.Kv.Config.{PoolConfig}
use autotree.Kv.Pool.{Row, new_pool}
use autotree.Kv.Tree.{TreeState, new_tree, root_id}
use autotree.Kv.Tree.Start.{start, new_tree-eq}
use autotree.Kv.Tree.View.{view, view_append}
use autotree.Kv.Append.{same_shape}
use autotree.Kv.Promises.Configs.{post_init_lem}
use autotree.Modeling.{
  Executor, Output, Execution, InputIds, normalize_input_ids, validate_cache_shape,
}
use autotree.Modeling.Calls.{prefill, raw_config, pool_config, fits_capacity, filled}
use autotree.Modeling.Consistent.{IsConsistent}
use autotree.Modeling.Rooted.{Rooted, filled-Rooted}
use autotree.Modeling.Shapes.{steps, guarded, normalized-positive}

-- What `prefill` makes of a prompt.
pub record Prefilled {L : Type 0} (x : Executor) (input : InputIds) (e : Execution L) : Type 0 where
  pub consistent : IsConsistent e
  pub prompt : List ℕ
  pub given : normalize_input_ids input ≡ ok prompt
  pub known : get root_id e.token_ids ≡ some prompt
  pub alone : (i : ℕ) → (root_id == i) ≡ false → view e.tree i ≡ none
  pub owned : e.owner ≡ x.owner

view-start : (c : PoolConfig) → (i : ℕ) → (root_id == i) ≡ false → view (start c) i ≡ none
unfolding start
view-start c i other = rw other refl

view-root :
    (c : PoolConfig) (rows : List Row) (i : ℕ)
    → (root_id == i) ≡ true
    → view_append (view (start c)) root_id rows i ≡ some (record { parent = none; rows = rows })
unfolding start new_pool
view-root c rows i here = rw here refl

view_other :
    (c : PoolConfig) (rows : List Row) (i : ℕ)
    → (root_id == i) ≡ false
    → view_append (view (start c)) root_id rows i ≡ none
view_other c rows i other = rw other (view-start c i other)

positive_size : (x : Executor) (c : PoolConfig) → pool_config x ≡ ok c → 0 < c.page_size
positive_size x c made = (((post_init_lem (raw_config x)).0 c).0 made).slots.1

module _ {L : Type 0} (x : Executor) where
  abbrev begun : TreeState → List ℕ → L → Execution L
  begun t ids logits = record {
    tree = t;
    owner = x.owner;
    next_logits = (root_id, logits) ∷ [];
    token_ids = (root_id, ids) ∷ [];
  }

  begun-Prefilled :
      (c : PoolConfig) (t : TreeState) (input : InputIds) (ids : List ℕ) (logits : L)
      → normalize_input_ids input ≡ ok ids
      → Rooted c (length ids) t
      → Prefilled x input (begun t ids logits)
  begun-Prefilled c t input ids logits given r = record {
    consistent = record {
      valid = r.valid;
      tokens = λ i. elim (Bool-cases (root_id == i)) [
        | inl here ↦ rw (here, r.views i, view-root c r.rows i here) (ap some (sym r.count))
        | inr there ↦ rw (there, r.views i, view_other c r.rows i there) refl
      ];
      logits = λ i. elim (Bool-cases (root_id == i)) [
        | inl here ↦ rw (here, r.views i, view-root c r.rows i here) refl
        | inr there ↦ rw (there, r.views i, view_other c r.rows i there) refl
      ];
    };
    prompt = ids;
    given = given;
    known = refl;
    alone = λ i other. r.views i ∙ view_other c r.rows i other;
    owned = refl;
  }

  finished :
      (c : PoolConfig) (t0 t : TreeState) (input : InputIds) (ids : List ℕ) (output : Output L)
      (l : L) (e : Execution L)
      → normalize_input_ids input ≡ ok ids
      → validate_cache_shape x output.keys (length ids) ≡ ok tt
      → pool_config x ≡ ok c
      → new_tree (new_pool c) ≡ ok t0
      → filled output.keys output.values t0 ≡ ok t
      → ok (begun t ids l) ≡ ok e
      → Prefilled x input e
  finished c t0 t input ids output l e given shape made new grown same =
      let at_start : filled output.keys output.values (start c) ≡ ok t =
        subst (λ s. filled output.keys output.values s ≡ ok t)
          (ok-injective (sym new ∙ new_tree-eq c)) grown in
      let shaped =
        guarded
          (same_shape output.keys.shape
            (x.num_layers ∷ (length ids ∷ (x.num_kv_heads ∷ (x.head_dim ∷ [])))))
          value_error _ tt shape in
      let r =
        filled-Rooted c output.keys output.values x.num_layers (length ids) x.num_kv_heads
          x.head_dim t (positive_size x c made) (normalized-positive input ids given) shaped
          at_start in
      subst (Prefilled x input) (ok-injective same) (begun-Prefilled c t input ids l given r)

  module _ (forward : List ℕ → Result (Output L)) where
    -- If `prefill` returns, then the execution belongs to the executor and is consistent: its tree is
    -- valid and its dicts agree with it. The root is its only branch, and holds the token ids of the
    -- prompt, with as many rows in the pool.
    pub prefill-Prefilled :
        (input : InputIds) (e : Execution L)
        → prefill L forward x input ≡ ok e
        → Prefilled x input e
    unfolding prefill
    prefill-Prefilled input e h =
        let (ids, (given, h1)) = steps (normalize_input_ids input) _ e h in
        let (output, (ran, h2)) = steps (forward ids) _ e h1 in
        let (_, (shape, h3)) = steps (validate_cache_shape x output.keys (length ids)) _ e h2 in
        let (_, (fits, h4)) = steps (fits_capacity x (length ids)) _ e h3 in
        let (c, (made, h5)) = steps (pool_config x) _ e h4 in
        let (t0, (new, h6)) = steps (new_tree (new_pool c)) _ e h5 in
        let (t, (grown, h7)) = steps (filled output.keys output.values t0) _ e h6 in
        let (l, (read, h8)) = steps output.logits _ e h7 in
        finished c t0 t input ids output l e given shape made new grown h8
