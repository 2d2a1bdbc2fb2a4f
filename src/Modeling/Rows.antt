-- ===== src/Modeling/Rows.antt =====
-- The loop of `decode_batch` over the rows of one forward (modeling/executor.py).
use autotree.Base.{ℕ, suc, ◌≡◌, refl, sym, subst, List, [], ◌∷◌, length, inl, inr, ◌⊎◌, arith}
use autotree.Kv.Errors.{Error, Result, ok, err}
use autotree.Kv.Exec.{Exec, resume}
use autotree.Kv.Tree.{TreeState}
use autotree.Modeling.{Execution, ForestOutput, DecodeOutput, commit_token}
use autotree.Modeling.Calls.{commit_rows}
use autotree.Modeling.Consistent.{IsConsistent}
use autotree.Modeling.Decode.{Moved, Torn, Commits, Moved-IsConsistent}
use autotree.Modeling.Steps.{token_committed}

-- a call that may raise, and what follows it
pub then_-ends :
    {S A B : Type 0} (m : Result A × S) (f : A → Exec S B) (P : Result B × S → Type 0)
    → ((z : Error) (s : S) → m ≡ (err z, s) → P (err z, s))
    → ((a : A) (s : S) → m ≡ (ok a, s) → P (f a s))
    → P (resume m f)
then_-ends (ok a, s) f P bad good = good a s refl
then_-ends (err z, s) f P bad good = bad z s refl

-- the same for a call that does not change the state
pub read_then :
    {S A B : Type 0} (s : S) (m : Result A × S) (f : A → Exec S B) (P : Result B × S → Type 0)
    → m.1 ≡ s
    → ((z : Error) → P (err z, s))
    → ((a : A) → m.0 ≡ ok a → P (f a s))
    → P (resume m f)
read_then s (ok a, s') f P same bad good = subst (λ t. P (f a t)) (sym same) (good a refl)
read_then s (err z, s') f P same bad good = subst (λ t. P (err z, t)) (sym same) (bad z)

module _ {L : Type 0} (out : ForestOutput L) where
  -- every branch has moved, in order, by its token and with the logits of its row
  abbrev pub Applied :
      ℕ → List ℕ → List ℕ → List (DecodeOutput L) → Execution L → Execution L → Type 0
  Applied row (i ∷ branches) (n ∷ tokens) (d ∷ rest) e e' =
      (out.logits_of row ≡ ok d.logits)
      × ((d.branch_id ≡ i)
          × ((d.token_id ≡ n)
              × ((mid : Execution L) × (Moved e mid i n d.logits
                    × Applied (suc row) branches tokens rest mid e'))))
  Applied row [] [] [] e e' = e' ≡ e
  Applied row _ _ _ e e' = ⊥

  -- the branches before some branch have moved, and that branch was left as it was, or was torn
  abbrev pub Stopped : ℕ → List ℕ → List ℕ → Error → Execution L → Execution L → Type 0
  Stopped row (i ∷ branches) (n ∷ tokens) z e e' =
      ((e' ≡ e) ⊎ ((out.logits_of row ≡ err z) × Torn e e' i))
      ⊎ ((l : L) × ((out.logits_of row ≡ ok l)
            × ((mid : Execution L) × (Moved e mid i n l
                  × Stopped (suc row) branches tokens z mid e'))))
  Stopped row _ _ z e e' = ⊥

  abbrev pub Rows :
      ℕ → List ℕ → List ℕ → Execution L → Result (List (DecodeOutput L)) × Execution L → Type 0
  Rows row branches tokens e (ok ds, e') = Applied row branches tokens ds e e'
  Rows row branches tokens e (err z, e') = Stopped row branches tokens z e e'

  module _ (forest_forward : TreeState → List ℕ → List ℕ → List ℕ → Result (ForestOutput L)) where
    first_row :
        (row i n : ℕ) (branches tokens : List ℕ) (e mid : Execution L) (d : DecodeOutput L)
        (m : Result (List (DecodeOutput L)) × Execution L)
        → Commits e i n (out.logits_of row) (ok d, mid)
        → Rows (suc row) branches tokens mid m
        → Rows row (i ∷ branches) (n ∷ tokens) e (resume m (λ rest s. (ok (d ∷ rest), s)))
    first_row row i n branches tokens e mid d (ok ds, e') (good, (at, (is, moved))) rest =
        (good, (at, (is, (mid, (moved, rest)))))
    first_row row i n branches tokens e mid d (err z, e') (good, (at, (is, moved))) rest =
        inr (d.logits, (good, (mid, (moved, rest))))

    pub commit_rows-Rows :
        (row : ℕ) (branches tokens : List ℕ) (e : Execution L)
        → IsConsistent e
        → length branches ≡ length tokens
        → Rows row branches tokens e (commit_rows L forest_forward out row branches tokens e)
    unfolding commit_rows
    commit_rows-Rows row [] [] e c h = refl
    commit_rows-Rows row [] (n ∷ tokens) e c h = absurd (omega (arith, h))
    commit_rows-Rows row (i ∷ branches) [] e c h = absurd (omega (arith, h))
    commit_rows-Rows row (i ∷ branches) (n ∷ tokens) e c h =
        let committed =
          token_committed e i n (out.key_of row) (out.value_of row) (out.logits_of row) c in
        then_-ends (commit_token L i n (out.key_of row) (out.value_of row) (out.logits_of row) e) _
          (Rows row (i ∷ branches) (n ∷ tokens) e)
          (λ z s ran. inl (subst (Commits e i n (out.logits_of row)) ran committed))
          (λ d s ran.
            let here = subst (Commits e i n (out.logits_of row)) ran committed in
            first_row row i n branches tokens e s d _ here (
              commit_rows-Rows (suc row) branches tokens s
                (Moved-IsConsistent e s i n d.logits c here.1.1.1) (omega (arith, h))))
