-- ===== src/Kv/Append/Outcome.antt =====
-- `_append_validated`, `append_token` and `append_tokens` as a whole.
use autotree.Base.{
  ℕ, ◌-◌, ◌≤◌, ◌<◌, ◌≡◌, refl, ap, sym, ◌∙◌, List, [], ◌∷◌, length, some, ◌==◌, inl, inr,
  Bool-cases, ==_iff, append-nil,
}
use autotree.Kv.Errors.{Result, ok, err, capacity_error}
use autotree.Kv.Pool.{Row}
use autotree.Kv.Branches.{Branch, lookup, branch_id-lookup, put_live}
use autotree.Kv.Tree.{TreeState}
use autotree.Kv.Tree.Valid.{IsValid}
use autotree.Kv.Tree.View.{view, view_append, branch_rows}
use autotree.Kv.Append.{append_validated}
use autotree.Kv.Append.Rows.{
  Appended, append_rows-ends, append_rows-fails, pages_needed, pages_at_hand,
}
use autotree.Kv.Append.Commit.{cursor, others, anchored, appended, appended-IsValid, view-appended}

-- the outcome of a successful append
pub record Grown (t : TreeState) (i : ℕ) (rows : List Row) (m : Result (Unit {0}) × TreeState)
    : Type 0 where
  pub after : TreeState
  pub runs : m ≡ (ok tt, after)
  pub valid : IsValid after
  pub views : (j : ℕ) → view after j ≡ view_append (view t) i rows j

module _ (t : TreeState) (i : ℕ) (b : Branch) (v : IsValid t)
    (live : lookup i t.branches ≡ some b) where
  append_some :
      (x : Row) (xs : List Row)
      → pages_needed (length (x ∷ xs)) (cursor t b) ≤ pages_at_hand (cursor t b)
      → Grown t i (x ∷ xs) (append_validated b (x ∷ xs) t)
  unfolding append_validated
  append_some x xs enough =
      let a : Appended (others t i b v live) (x ∷ xs) (cursor t b) =
        append_rows-ends (others t i b v live) (cursor t b) (anchored t i b v live) (x ∷ xs)
          enough in
      record {
        after = appended t i b v live (x ∷ xs) a.end a.wrote;
        runs = rw a.runs;
        valid = appended-IsValid t i b v live (x ∷ xs) a.end a.wrote;
        views = view-appended t i b v live (x ∷ xs) a.end a.wrote;
      }

  same_view : (j : ℕ) → view t j ≡ view_append (view t) i [] j
  same_view j = elim (Bool-cases (i == j)) [
    | inl here ↦
        let at : lookup j t.branches ≡ some b =
          ap (λ (k : ℕ). lookup k t.branches) (sym ((==_iff i j).0 here)) ∙ live in
        rw (here, at, live)
          (ap (λ (xs : List Row). some (record { parent = b.parent_id; rows = xs }))
            (sym (append-nil (branch_rows t.pool b))))
    | inr there ↦ rw there
  ]

  pub append_validated-grows :
      (rows : List Row)
      → pages_needed (length rows) (cursor t b) ≤ pages_at_hand (cursor t b)
      → Grown t i rows (append_validated b rows t)
  unfolding append_validated
  append_validated-grows [] enough = record { after = t; runs = refl; valid = v; views = same_view }
  append_validated-grows (x ∷ xs) enough = append_some x xs enough

  pub append_validated-fails :
      (x : Row) (xs : List Row)
      → pages_at_hand (cursor t b) < pages_needed (length (x ∷ xs)) (cursor t b)
      → append_validated b (x ∷ xs) t ≡ (
        err (
            capacity_error
              (pages_needed (length (x ∷ xs)) (cursor t b) - length b.block_table)
              (length t.pool.free_pages)),
        t,
      )
  unfolding append_validated
  append_validated-fails x xs short =
      rw
        (append_rows-fails (others t i b v live) (cursor t b) (anchored t i b v live) (x ∷ xs)
          short)
        (ap {B = Result (Unit {0}) × TreeState}
          (λ (bs : List Branch). (
            err (
                capacity_error (pages_needed (length (x ∷ xs)) (cursor t b) - length b.block_table)
                  (length t.pool.free_pages)),
            record t { branches = bs },
          ))
          (put_live b t.branches
            (ap (λ (k : ℕ). lookup k t.branches) (branch_id-lookup i t.branches b live) ∙ live)))
