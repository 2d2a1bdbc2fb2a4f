-- ===== src/Modeling/Rooted.antt =====
-- The tree of a new pool after tokens were appended to its root, as `prefill` (modeling/executor.py)
-- does it.
use autotree.Base.{
  ℕ, ◌<◌, ◌≡◌, refl, ap, sym, ◌∙◌, subst, true, some, List, [], ◌∷◌, length, inl, inr, arith,
}
use native.Mathlib.Decide.{dec_le}
use autotree.Kv.Errors.{ok-injective, Error, Result, ok, err, Result-cases}
use autotree.Kv.Config.{PoolConfig}
use autotree.Kv.Pool.{Row}
use autotree.Kv.Branches.{Branch, lookup}
use autotree.Kv.Tree.{TreeState, root_id, root_branch}
use autotree.Kv.Tree.Start.{start, start-IsValid}
use autotree.Kv.Tree.Valid.{IsValid}
use autotree.Kv.Tree.View.{view, view_append}
use autotree.Kv.Append.{
  Argument, Tensor, tensor, append_tokens, append_validated, same_shape, validate_tensor_pair,
  tokens_of_tokens,
}
use autotree.Kv.Append.Commit.{cursor}
use autotree.Kv.Append.Rows.{pages_needed, pages_at_hand}
use autotree.Kv.Append.Outcome.{Grown, append_validated-grows, append_validated-fails}
use autotree.Modeling.Calls.{tree_of, filled}
use autotree.Modeling.Shapes.{shaped_rows}

root_live : (c : PoolConfig) → lookup root_id (start c).branches ≡ some root_branch
unfolding start
root_live c = refl

err_no : {A B : Type 0} {x : Error} {a : A} → err x ≡ ok a → B
err_no e = cc

-- the root of a new tree after rows were appended to it
pub record Rooted (c : PoolConfig) (n : ℕ) (t : TreeState) : Type 0 where
  pub rows : List Row
  pub count : length rows ≡ n
  pub valid : IsValid t
  pub views : (j : ℕ) → view t j ≡ view_append (view (start c)) root_id rows j

Grown-Rooted :
    (c : PoolConfig) (rows : List Row) (t : TreeState) (m : Result (Unit {0}) × TreeState)
    → Grown (start c) root_id rows m
    → tree_of m ≡ ok t
    → Rooted c (length rows) t
Grown-Rooted c rows t m g e =
    let same : g.after ≡ t = ok-injective (sym (ap tree_of g.runs) ∙ e) in
    record {
      rows = rows;
      count = refl;
      valid = subst IsValid same g.valid;
      views =
          λ j. subst (λ s. view s j ≡ view_append (view (start c)) root_id rows j) same (g.views j);
    }

validated-Rooted :
    (c : PoolConfig) (x : Row) (xs : List Row) (t : TreeState)
    → 0 < c.page_size
    → tree_of (append_validated root_branch (x ∷ xs) (start c)) ≡ ok t
    → Rooted c (length (x ∷ xs)) t
validated-Rooted c x xs t h e =
    let live : lookup root_id (start c).branches ≡ some root_branch = root_live c in
    elim (dec_le (pages_needed (length (x ∷ xs)) (cursor (start c) root_branch))
      (pages_at_hand (cursor (start c) root_branch))) [
        | yes enough ↦
            Grown-Rooted c (x ∷ xs) t _
              (append_validated-grows (start c) root_id root_branch (start-IsValid c h) live
                (x ∷ xs) enough)
              e
        | no short ↦
            let fails =
              append_validated-fails (start c) root_id root_branch (start-IsValid c h) live x xs
                (omega arith) in
            err_no (sym (ap tree_of fails) ∙ e)
      ]

module _ (t : TreeState) (i : ℕ) (b : Branch) (k v : Argument)
    (live : lookup i t.branches ≡ some b) where
  append_bad_pair :
      (x : Error)
      → validate_tensor_pair t.pool.config k v ≡ err x
      → append_tokens i k v t ≡ (err x, t)
  unfolding append_tokens
  append_bad_pair x bad = rw live (rw bad refl)

  append_bad_rows :
      (pair : Tensor × Tensor) (x : Error)
      → validate_tensor_pair t.pool.config k v ≡ ok pair
      → tokens_of_tokens t.pool.config pair ≡ err x
      → append_tokens i k v t ≡ (err x, t)
  unfolding append_tokens
  append_bad_rows pair x good bad = rw live (rw good (rw bad refl))

  append_good :
      (pair : Tensor × Tensor) (rows : List Row)
      → validate_tensor_pair t.pool.config k v ≡ ok pair
      → tokens_of_tokens t.pool.config pair ≡ ok rows
      → append_tokens i k v t ≡ append_validated b rows t
  unfolding append_tokens
  append_good pair rows good shaped = rw live (rw good (rw shaped refl))

rows-Rooted :
    (c : PoolConfig) (rows : List Row) (n : ℕ) (t : TreeState)
    → 0 < c.page_size
    → 0 < n
    → length rows ≡ n
    → tree_of (append_validated root_branch rows (start c)) ≡ ok t
    → Rooted c n t
rows-Rooted c [] n t h some_rows long e = absurd (omega arith)
rows-Rooted c (x ∷ xs) n t h some_rows long e =
    subst (λ m. Rooted c m t) long (validated-Rooted c x xs t h e)

pub filled-Rooted :
    (c : PoolConfig) (k v : Tensor) (l n h d : ℕ) (t : TreeState)
    → 0 < c.page_size
    → 0 < n
    → same_shape k.shape (l ∷ (n ∷ (h ∷ (d ∷ [])))) ≡ true
    → filled k v (start c) ≡ ok t
    → Rooted c n t
filled-Rooted c k v l n h d t size some_rows same e =
    elim (Result-cases (validate_tensor_pair (start c).pool.config (tensor k) (tensor v))) [
      | inl (x, bad) ↦ err_no (
          sym (
            ap tree_of (
              append_bad_pair (start c) root_id root_branch (tensor k) (tensor v) (root_live c) x
                bad))
          ∙ e)
      | inr (pair, good) ↦ elim (Result-cases (tokens_of_tokens (start c).pool.config pair)) [
        | inl (x, bad) ↦ err_no (
            sym (
              ap tree_of (
                append_bad_rows (start c) root_id root_branch (tensor k) (tensor v) (root_live c)
                  pair x good bad))
            ∙ e)
        | inr (rows, shaped) ↦
            let long = shaped_rows (start c).pool.config k v pair rows l n h d same good shaped in
            rows-Rooted c rows n t size some_rows long (
              sym (
                ap tree_of (
                  append_good (start c) root_id root_branch (tensor k) (tensor v) (root_live c) pair
                    rows good shaped))
              ∙ e)
      ]
    ]
