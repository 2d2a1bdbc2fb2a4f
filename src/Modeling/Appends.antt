-- ===== src/Modeling/Appends.antt =====
-- The calls on the tree that `decode` makes (modeling/executor.py): the gathers and the append.
use autotree.Base.{
  ℕ, zero, suc, ◌-◌, ◌<◌, ◌≤◌, ◌≡◌, refl, ap, subst, some, List, [], ◌∷◌, length, arith, inl, inr,
  ◌⊎◌, Bool-cases,
}
use native.Mathlib.Decide.{dec_le}
use autotree.Kv.Errors.{Error, capacity_error, Result, ok, err, Result-cases, value_error}
use autotree.Kv.Pool.{Row}
use autotree.Kv.Branches.{Branch, lookup}
use autotree.Kv.Gather.{LayerTokens, layer_tokens}
use autotree.Kv.Gather.Reads.{gather_branch_kv-range}
use autotree.Kv.Tree.{TreeState, gather}
use autotree.Kv.Tree.Valid.{IsValid}
use autotree.Kv.Append.{
  Tensor, Argument, append_token, validate_tensor_pair, tokens_of_token, same_shape, row_at,
  token_shape,
}
use autotree.Kv.Append.Rows.{pages_needed, pages_at_hand}
use autotree.Kv.Append.Commit.{cursor}
use autotree.Kv.Append.Outcome.{Grown, append_validated-fails}
use autotree.Kv.Promises.Forks.{gather-reads_view}
use autotree.Kv.Promises.Appends.{append_token-refines}
use autotree.Modeling.{gather_layers}

-- what an append of one token to a live branch does
abbrev pub Appends : TreeState → ℕ → Result (Unit {0}) × TreeState → Type 0
Appends t i m =
    ((rows : List Row) × Grown t i rows m × (length rows ≡ 1)) ⊎ ((e : Error) × (m ≡ (err e, t)))

one_row :
    (t : TreeState) (pair : Tensor × Tensor) (rows : List Row)
    → tokens_of_token t.pool.config pair ≡ ok rows
    → (x : Row) × (rows ≡ x ∷ [])
one_row t (k, v) rows h = elim (Bool-cases (same_shape k.shape (token_shape t.pool.config))) [
  | inl good ↦ (row_at t.pool.config k v 0, ground (arith, h, good))
  | inr bad ↦ ground (arith, h, bad)
]

pub append_token-Appends :
    (t : TreeState) (i : ℕ) (b : Branch) (k v : Argument)
    → IsValid t
    → lookup i t.branches ≡ some b
    → Appends t i (append_token i k v t)
unfolding append_token
append_token-Appends t i b k v valid live =
    elim (Result-cases (validate_tensor_pair t.pool.config k v)) [
      | inl (e, bad) ↦ inr (e, rw live (rw bad refl))
      | inr (pair, good) ↦ elim (Result-cases (tokens_of_token t.pool.config pair)) [
        | inl (e, bad) ↦ inr (e, rw live (rw good (rw bad refl)))
        | inr (rows, shaped) ↦
            let (x, single) = one_row t pair rows shaped in
            elim (dec_le (pages_needed (length rows) (cursor t b)) (pages_at_hand (cursor t b))) [
              | yes enough ↦ inl (
                rows,
                append_token-refines t i b k v pair rows valid live good shaped enough,
                ap length single,
              )
              | no short ↦
                  let few : pages_at_hand (cursor t b)
                      < pages_needed (length (x ∷ [])) (cursor t b) =
                    subst (λ rs. pages_at_hand (cursor t b) < pages_needed (length rs) (cursor t b))
                      single (omega (arith, short)) in
                  inr (
                    capacity_error
                        (pages_needed (length (x ∷ [])) (cursor t b) - length b.block_table)
                        (length t.pool.free_pages),
                    rw live (
                        rw good (
                          rw shaped
                            (rw single (append_validated-fails t i b valid live x [] few)))),
                  )
            ]
      ]
    ]

no_layer :
    (t : TreeState) (i : ℕ) (b : Branch) (layer : ℕ)
    → lookup i t.branches ≡ some b
    → t.pool.config.num_layers ≤ layer
    → gather i layer t ≡ (err value_error, t)
unfolding gather
no_layer t i b layer live beyond =
    rw live (rw (gather_branch_kv-range t.pool b.block_table b.num_tokens layer beyond) refl)

pub gather_layers-eq :
    (t : TreeState) (i : ℕ) (b : Branch) (layer n : ℕ)
    → IsValid t
    → lookup i t.branches ≡ some b
    → (r : Result (List LayerTokens)) × (gather_layers i layer n t ≡ (r, t))
unfolding gather_layers
gather_layers-eq t i b layer zero valid live = (ok [], refl)
gather_layers-eq t i b layer (suc n) valid live =
    let (rest, tail) = gather_layers-eq t i b (suc layer) n valid live in
    elim (dec_le t.pool.config.num_layers layer) [
      | yes beyond ↦ (err value_error, rw (no_layer t i b layer live beyond) refl)
      | no within ↦
          let (rows, seen, first) =
            gather-reads_view t i layer b valid live (omega (arith, within)) in
          elim (Result-cases rest) [
            | inl (e, bad) ↦ (err e, rw first (rw tail (rw bad refl)))
            | inr (others, good) ↦
                (ok (layer_tokens layer rows ∷ others), rw first (rw tail (rw good refl)))
          ]
    ]
