-- ===== src/Modeling/Batch.antt =====
-- `decode_batch`: a call that may stop half-way, after some of the branches.
use autotree.Base.{
  ℕ, suc, ◌≡◌, refl, ap, sym, ◌∙◌, Bool, true, false, not, ◌||◌, ◌&&◌, List, [], ◌∷◌, map, length,
  ◌==◌, inl, inr, ◌⊎◌, Option-cases, arith,
}
use autotree.Kv.Errors.{Error, Result, ok, err, value_error, ok-injective, Result-cases}
use autotree.Kv.Exec.{raise_if, Exec, resume}
use autotree.Kv.Branches.{Snapshot, lookup}
use autotree.Kv.Tree.{TreeState, get_branch, has_items}
use autotree.Modeling.{
  Executor, Execution, ForestOutput, DecodeOutput, Token, token, not_an_int, integers, lift,
  on_tree, same_length, repeats,
}
use autotree.Modeling.Calls.{decode_batch, snapshots}
use autotree.Modeling.Consistent.{IsConsistent}
use autotree.Modeling.Rows.{read_then, Applied, Stopped, Rows, commit_rows-Rows}

-- a guard, and what follows it
guard_then :
    {S B : Type 0} (s : S) (b : Bool) (z : Error) (f : Unit {0} → Exec S B)
    (P : Result B × S → Type 0)
    → P (err z, s)
    → (b ≡ false → P (f tt s))
    → P (resume (raise_if b z s) f)
guard_then s true z f P bad good = bad
guard_then s false z f P bad good = good refl

length-integers :
    (values : List Token) (tokens : List ℕ)
    → integers values ≡ ok tokens
    → length tokens ≡ length values
length-integers [] tokens e = ap length (sym (ok-injective e))
length-integers (not_an_int ∷ values) tokens e = cc
length-integers (token n ∷ values) tokens e = elim (Result-cases (integers values)) [
  | inl (z, bad) ↦ ground (arith, e, bad)
  | inr (rest, good) ↦
      let shorter = length-integers values rest good in
      let same : ok (n ∷ rest) ≡ ok tokens = ground (arith, e, good) in
      ap length (sym (ok-injective same)) ∙ ap suc shorter
]

module _ {L : Type 0}
    (forest_forward : TreeState → List ℕ → List ℕ → List ℕ → Result (ForestOutput L)) where
  get_branch-same : (i : ℕ) (e : Execution L) → (on_tree L (get_branch i) e).1 ≡ e
  unfolding get_branch
  get_branch-same i e = elim (Option-cases (lookup i e.tree.branches)) [
    | inl gone ↦ rw gone refl
    | inr (b, live) ↦ rw live refl
  ]

  snapshots-same : (ids : List ℕ) (e : Execution L) → (snapshots L forest_forward ids e).1 ≡ e
  unfolding snapshots
  snapshots-same [] e = refl
  snapshots-same (i ∷ rest) e =
      read_then e (on_tree L (get_branch i) e) _ (λ m. m.1 ≡ e) (get_branch-same i e) (λ z. refl)
        (λ b first.
          read_then e (snapshots L forest_forward rest e) _ (λ m. m.1 ≡ e) (snapshots-same rest e)
            (λ z. refl) (λ bs others. refl))

  -- the one forward of a batch, at the positions that its branches have reached
  pub record Forwarded (e : Execution L) (selected : List ℕ) (values : List Token) : Type 0 where
    pub tokens : List ℕ
    pub ints : integers values ≡ ok tokens
    pub paired : length selected ≡ length tokens
    pub distinct : repeats selected ≡ false
    pub branches : List Snapshot
    pub taken : (snapshots L forest_forward selected e).0 ≡ ok branches
    pub output : ForestOutput L
    pub ran : forest_forward e.tree selected tokens (map (λ b. b.num_tokens) branches) ≡ ok output

  abbrev pub Batches :
      Execution L → List ℕ → List Token → Result (List (DecodeOutput L)) × Execution L → Type 0
  Batches e selected values (ok ds, e') =
      (f : Forwarded e selected values) × Applied f.output 0 selected f.tokens ds e e'
  Batches e selected values (err z, e') =
      (e' ≡ e) ⊎ ((f : Forwarded e selected values) × Stopped f.output 0 selected f.tokens z e e')

  Rows-Batches :
      (e : Execution L) (selected : List ℕ) (values : List Token) (f : Forwarded e selected values)
      (m : Result (List (DecodeOutput L)) × Execution L)
      → Rows f.output 0 selected f.tokens e m
      → Batches e selected values m
  Rows-Batches e selected values f (ok ds, e') r = (f, r)
  Rows-Batches e selected values f (err z, e') r = inr (f, r)

  -- On an execution whose dicts match its tree, a batch that returns has moved every branch, in
  -- order, by its own token and by no other: one row, the token id, and the logits that the one
  -- forward returned in the row of the branch. If it raises, then either nothing has changed, or the
  -- branches before some branch have moved so; that branch is then as it was, or, where the model
  -- returned no logits in its row, has the row of its token and no more; and those behind it are as
  -- they were.
  pub decode_batch-Batches :
      (x : Executor) (e : Execution L) (selected : List ℕ) (values : List Token)
      → IsConsistent e
      → Batches e selected values (decode_batch L forest_forward x selected values e)
  unfolding decode_batch
  decode_batch-Batches x e selected values c =
      let P = Batches e selected values in
      guard_then e (not (e.owner == x.owner)) value_error _ P (inl refl) λ owned.
        guard_then e (not (has_items selected) || not (same_length selected values)) value_error _ P
          (inl refl)
          λ sized. guard_then e (repeats selected) value_error _ P (inl refl) λ distinct.
            read_then e (lift (integers values) e) _ P refl (λ z. inl refl)
              λ tokens ints.
                read_then e (snapshots L forest_forward selected e) _ P (snapshots-same selected e)
                  (λ z. inl refl)
                  λ branches taken.
                    read_then e
                      (lift
                        (forest_forward e.tree selected tokens (map (λ b. b.num_tokens) branches))
                        e)
                      _ P refl (λ z. inl refl)
                      λ output ran.
                        guard_then e (not (output.rows == length selected && output.steps == 1))
                          value_error _ P (inl refl)
                          λ shaped.
                            let paired : length selected ≡ length tokens =
                              ground (arith, sized, length-integers values tokens ints) in
                            Rows-Batches e selected values
                              (record {
                                tokens = tokens;
                                ints = ints;
                                paired = paired;
                                distinct = distinct;
                                branches = branches;
                                taken = taken;
                                output = output;
                                ran = ran;
                              })
                              _
                              (commit_rows-Rows output forest_forward 0 selected tokens e c paired)
