-- ===== src/Modeling/Decode.antt =====
-- `ModelExecutor.decode`: one token more on one branch, in the tree and in the dicts.
use autotree.Base.{
  ℕ, ◌≡◌, refl, ap, some, List, [], ◌∷◌, ◌++◌, length, length-append, ◌==◌, arith, get, set,
  get-set, sym, ◌∙◌, ==_iff, Option, none, if◌then◌else◌, inl, inr, ◌⊎◌, Bool-cases,
}
use autotree.Kv.Errors.{Result, ok, err, Result-cases}
use autotree.Kv.Pool.{Row}
use autotree.Kv.Branches.{Branch, lookup}
use autotree.Kv.Tree.{TreeState}
use autotree.Kv.Tree.Valid.{IsValid}
use autotree.Kv.Tree.View.{node_of, branch_rows, view, view_append}
use autotree.Kv.Append.{Tensor, tensor}
use autotree.Modeling.{Execution, DecodeOutput, commit_token}
use autotree.Modeling.Consistent.{IsConsistent, live_ids}
use autotree.Modeling.Appends.{append_token-Appends}

abbrev appended : ℕ → Option (List ℕ) → Option (List ℕ)
appended n none = none
appended n (some ids) = some (ids ++ n ∷ [])

-- the tree has one row more on a live branch, and nothing else changed in it
pub record HasRow (t t' : TreeState) (i : ℕ) : Type 0 where
  pub branch : Branch
  pub live : lookup i t.branches ≡ some branch
  pub rows : List Row
  pub one : length rows ≡ 1
  pub valid : IsValid t'
  pub views : (j : ℕ) → view t' j ≡ view_append (view t) i rows j

module _ {L : Type 0} where
  -- one token more on a branch: its row, its token id and its logits, and no other branch changed
  pub record Moved (e e' : Execution L) (i n : ℕ) (l : L) : Type 0 where
    pub tree : HasRow e.tree e'.tree i
    pub tokens :
        (j : ℕ)
        → get j e'.token_ids
          ≡ (if i == j then appended n (get j e.token_ids) else get j e.token_ids)
    pub logits : (j : ℕ) → get j e'.next_logits ≡ (if i == j then some l else get j e.next_logits)
    pub owner : e'.owner ≡ e.owner

  -- the row was written, the token id and the logits were not
  pub record Torn (e e' : Execution L) (i : ℕ) : Type 0 where
    pub tree : HasRow e.tree e'.tree i
    pub rest : e' ≡ record e { tree = e'.tree }

  -- what a commit does, given what the read of the logits gives
  abbrev pub Commits :
      Execution L → ℕ → ℕ → Result L → Result (DecodeOutput L) × Execution L → Type 0
  Commits e i n read (ok d, e') =
      (read ≡ ok d.logits) × ((d.branch_id ≡ i) × ((d.token_id ≡ n) × Moved e e' i n d.logits))
  Commits e i n read (err z, e') = (e' ≡ e) ⊎ ((read ≡ err z) × Torn e e' i)

  pub Moved-IsConsistent :
      (e e' : Execution L) (i n : ℕ) (l : L) → IsConsistent e → Moved e e' i n l → IsConsistent e'
  Moved-IsConsistent e e' i n l c m =
      let seen = ap (node_of e.tree.pool) m.tree.live in
      let (ids, known, long) = live_ids e i c _ seen in
      record {
        valid = m.tree.valid;
        tokens = λ j. elim (Bool-cases (i == j)) [
          | inl here ↦
              let at : get j e.token_ids ≡ some ids =
                ap (λ k. get k e.token_ids) (sym ((==_iff i j).0 here)) ∙ known in
              rw (m.tokens j, m.tree.views j, here, seen, at)
                (ap some (
                  omega (
                    arith,
                    length-append ids (n ∷ []),
                    length-append (branch_rows e.tree.pool m.tree.branch) m.tree.rows,
                    long,
                    m.tree.one,
                  )))
          | inr there ↦ rw (m.tokens j, m.tree.views j, there) (c.tokens j)
        ];
        logits = λ j. elim (Bool-cases (i == j)) [
          | inl here ↦ rw (m.logits j, m.tree.views j, here, seen) refl
          | inr there ↦ rw (m.logits j, m.tree.views j, there) (c.logits j)
        ];
      }

module _ {L : Type 0} (e : Execution L) (c : IsConsistent e) (i : ℕ) (b : Branch)
    (live : lookup i e.tree.branches ≡ some b) where
  moved :
      (n : ℕ) (l : L) (ids : List ℕ) (t' : TreeState)
      → get i e.token_ids ≡ some ids
      → HasRow e.tree t' i
      → Moved e
          (record e {
            tree = t';
            next_logits = set i l e.next_logits;
            token_ids = set i (ids ++ n ∷ []) e.token_ids;
          })
          i
          n
          l
  moved n l ids t' known row = record {
    tree = row;
    tokens = λ j. elim (Bool-cases (i == j)) [
      | inl here ↦
          let at : get j e.token_ids ≡ some ids =
            ap (λ k. get k e.token_ids) (sym ((==_iff i j).0 here)) ∙ known in
          rw (get-set j i (ids ++ n ∷ []) e.token_ids, here, at) refl
      | inr there ↦ rw (get-set j i (ids ++ n ∷ []) e.token_ids, there) refl
    ];
    logits = λ j. get-set j i l e.next_logits;
    owner = refl;
  }

  -- the tree, the logits and the token ids of the branch move together, where the logits can be read
  pub commit_token-Commits :
      (n : ℕ) (keys values : Tensor) (read : Result L)
      → Commits e i n read (commit_token L i n keys values read e)
  unfolding commit_token
  commit_token-Commits n keys values read =
      elim (append_token-Appends e.tree i b (tensor keys) (tensor values) c.valid live) [
        | inr (error, fails) ↦ rw fails (inl refl)
        | inl (rows, grown, one) ↦
            let seen = ap (node_of e.tree.pool) live in
            let (ids, known, long) = live_ids e i c _ seen in
            let row : HasRow e.tree grown.after i = record {
              branch = b;
              live = live;
              rows = rows;
              one = one;
              valid = grown.valid;
              views = grown.views;
            } in
            elim (Result-cases read) [
              | inl (z, bad) ↦
                  rw grown.runs (rw bad (inr (bad, record { tree = row; rest = refl })))
              | inr (l, good) ↦
                  rw grown.runs
                    (rw good (rw known (good, (refl, (refl, moved n l ids grown.after known row)))))
            ]
      ]
