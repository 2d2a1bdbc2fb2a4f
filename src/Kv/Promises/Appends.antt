-- ===== src/Kv/Promises/Appends.antt =====
-- `TreeState.append_token` and `append_tokens` against the view.
use autotree.Base.{
  ◌-◌, ◌<◌, ℕ, ◌≤◌, ◌≡◌, some, arith, List, [], ◌∷◌, length, inl, inr, Option-cases,
}
use native.Mathlib.Decide.{dec_le}
use autotree.Kv.Errors.{err, Result-cases, ok, capacity_error}
use autotree.Kv.Pool.{Row}
use autotree.Kv.Branches.{Branch, lookup}
use autotree.Kv.Tree.{TreeState}
use autotree.Kv.Tree.Valid.{IsValid, IsAtomic}
use autotree.Kv.Append.{
  Argument, Tensor, append_token, append_tokens, append_validated, validate_tensor_pair,
  tokens_of_token, tokens_of_tokens,
}
use autotree.Kv.Append.Rows.{pages_needed, pages_at_hand}
use autotree.Kv.Append.Commit.{cursor}
use autotree.Kv.Append.Outcome.{Grown, append_validated-grows, append_validated-fails}

-- On a valid tree, `append_tokens` to a live branch with tensors that pass the checks and with
-- enough pages succeeds: the tree stays valid, and its view changes only at that branch, which
-- gets the new rows at its end. Enough pages are those that the longer branch needs, plus one
-- where a shared last page is copied first; the pages at hand are the branch's own and the free.
pub append_tokens-refines :
    (t : TreeState) (i : ℕ) (b : Branch) (k v : Argument) (pair : Tensor × Tensor) (rows : List Row)
    → IsValid t
    → lookup i t.branches ≡ some b
    → validate_tensor_pair t.pool.config k v ≡ ok pair
    → tokens_of_tokens t.pool.config pair ≡ ok rows
    → pages_needed (length rows) (cursor t b) ≤ pages_at_hand (cursor t b)
    → Grown t i rows (append_tokens i k v t)
unfolding append_tokens
append_tokens-refines t i b k v pair rows valid live good shaped enough =
    rw live (rw good (rw shaped (append_validated-grows t i b valid live rows enough)))

-- On a valid tree, `append_token` to a live branch with tensors that pass the checks and with
-- enough pages succeeds: the tree stays valid, and its view changes only at that branch, which
-- gets the one new row at its end. Enough pages are those that the longer branch needs, plus one
-- where a shared last page is copied first; the pages at hand are the branch's own and the free.
pub append_token-refines :
    (t : TreeState) (i : ℕ) (b : Branch) (k v : Argument) (pair : Tensor × Tensor) (rows : List Row)
    → IsValid t
    → lookup i t.branches ≡ some b
    → validate_tensor_pair t.pool.config k v ≡ ok pair
    → tokens_of_token t.pool.config pair ≡ ok rows
    → pages_needed (length rows) (cursor t b) ≤ pages_at_hand (cursor t b)
    → Grown t i rows (append_token i k v t)
unfolding append_token
append_token-refines t i b k v pair rows valid live good shaped enough =
    rw live (rw good (rw shaped (append_validated-grows t i b valid live rows enough)))

validated-IsAtomic :
    (t : TreeState) (i : ℕ) (b : Branch) (rows : List Row)
    → IsValid t
    → lookup i t.branches ≡ some b
    → IsAtomic t (append_validated b rows t)
unfolding append_validated
validated-IsAtomic t i b [] v live = v
validated-IsAtomic t i b (x ∷ xs) v live =
    elim (dec_le (pages_needed (length (x ∷ xs)) (cursor t b)) (pages_at_hand (cursor t b))) [
      | yes enough ↦
          let g : Grown t i (x ∷ xs) (append_validated b (x ∷ xs) t) =
            append_validated-grows t i b v live (x ∷ xs) enough in
          rw g.runs g.valid
      | no short ↦ rw (append_validated-fails t i b v live x xs (omega arith))
    ]

-- On a valid tree, `append_tokens` either succeeds with a valid tree, or raises and leaves the tree
-- as it was, whatever the branch id and the arguments.
pub append_tokens-IsAtomic :
    (t : TreeState) (i : ℕ) (k v : Argument) → IsValid t → IsAtomic t (append_tokens i k v t)
unfolding append_tokens
append_tokens-IsAtomic t i k v valid = elim (Option-cases (lookup i t.branches)) [
  | inl gone ↦ rw gone
  | inr (b, live) ↦ elim (Result-cases (validate_tensor_pair t.pool.config k v)) [
    | inl (e, bad) ↦ rw live (rw bad)
    | inr (pair, good) ↦ elim (Result-cases (tokens_of_tokens t.pool.config pair)) [
      | inl (e, bad) ↦ rw live (rw good (rw bad))
      | inr (rows, shaped) ↦
          rw live (rw good (rw shaped (validated-IsAtomic t i b rows valid live)))
    ]
  ]
]

-- On a valid tree, `append_token` either succeeds with a valid tree, or raises and leaves the tree
-- as it was, whatever the branch id and the arguments.
pub append_token-IsAtomic :
    (t : TreeState) (i : ℕ) (k v : Argument) → IsValid t → IsAtomic t (append_token i k v t)
unfolding append_token
append_token-IsAtomic t i k v valid = elim (Option-cases (lookup i t.branches)) [
  | inl gone ↦ rw gone
  | inr (b, live) ↦ elim (Result-cases (validate_tensor_pair t.pool.config k v)) [
    | inl (e, bad) ↦ rw live (rw bad)
    | inr (pair, good) ↦ elim (Result-cases (tokens_of_token t.pool.config pair)) [
      | inl (e, bad) ↦ rw live (rw good (rw bad))
      | inr (rows, shaped) ↦
          rw live (rw good (rw shaped (validated-IsAtomic t i b rows valid live)))
    ]
  ]
]

-- On a valid tree, `append_tokens` of at least one token to a live branch, with tensors that pass
-- the checks but without enough pages, raises `KVCapacityError` with the pages that the append
-- would take and those available, and changes nothing.
pub append_tokens-out_of_pages :
    (t : TreeState) (i : ℕ) (b : Branch) (k v : Argument) (pair : Tensor × Tensor) (x : Row)
    (xs : List Row)
    → IsValid t
    → lookup i t.branches ≡ some b
    → validate_tensor_pair t.pool.config k v ≡ ok pair
    → tokens_of_tokens t.pool.config pair ≡ ok (x ∷ xs)
    → pages_at_hand (cursor t b) < pages_needed (length (x ∷ xs)) (cursor t b)
    → append_tokens i k v t ≡ (
      err (
          capacity_error
            (pages_needed (length (x ∷ xs)) (cursor t b) - length b.block_table)
            (length t.pool.free_pages)),
      t,
    )
unfolding append_tokens
append_tokens-out_of_pages t i b k v pair x xs valid live good shaped short =
    rw live (rw good (rw shaped (append_validated-fails t i b valid live x xs short)))
