-- ===== src/Modeling/Generated.antt =====
-- `generate` (modeling/executor.py): a prompt, and then one token after the other on one branch.
use autotree.Base.{ℕ, suc, ◌<◌, ◌≡◌, ◌⊎◌, some, List, [], ◌∷◌, ◌++◌, length, get}
use autotree.Kv.Errors.{Result, ok, err}
use autotree.Kv.Gather.{LayerTokens}
use autotree.Kv.Tree.{root_id}
use autotree.Modeling.{
  Executor, Execution, Output, InputIds, Token, token, not_an_int, next_logits, normalize_input_ids,
}
use autotree.Modeling.Calls.{prefill}
use autotree.Modeling.Consistent.{IsConsistent}
use autotree.Modeling.Decode.{Moved}
use autotree.Modeling.Steps.{Ran}

token_or : ℕ → Token → ℕ
token_or k (token n) = n
token_or k not_an_int = k

module _ {L : Type 0} (x : Executor) (forward : List ℕ → Result (Output L))
    (forward_cached : List LayerTokens → ℕ → ℕ → Result (Output L))
    (choose : ℕ → L → Result ℕ) where
  -- each token was chosen, at its step, from the logits that the model returned for the one before
  abbrev Chosen : ℕ → List ℕ → Execution L → Execution L → Type 0
  Chosen step [] e e' = e' ≡ e
  Chosen step (t ∷ rest) e e' =
      (l : L) × ((get root_id e.next_logits ≡ some l)
        × ((choose step l ≡ ok t)
            × ((next : L) × (Ran x forward_cached e root_id t (ok next)
                  × ((mid : Execution L) × (Moved e mid root_id t next
                        × Chosen (suc step) rest mid e'))))))

  -- some of the n tokens were made, and the next one raised
  abbrev Broken : ℕ → ℕ → Execution L → Type 0
  Broken step n e =
      (ids : List ℕ) × ((length ids < n) × ((last : Execution L) × Chosen step ids e last))

  abbrev Rounds : ℕ → ℕ → Execution L → Result (List ℕ) × Execution L → Type 0
  Rounds step n e (ok ids, e') = (length ids ≡ n) × Chosen step ids e e'
  Rounds step n e (err z, e') = Broken step n e

  -- what `generate` returns
  pub record Generates (input : InputIds) (n : ℕ) (ids : List ℕ) (e : Execution L) : Type 0 where
    pub first : Execution L
    pub begun : prefill L forward x input ≡ ok first
    pub prompt : List ℕ
    pub given : normalize_input_ids input ≡ ok prompt
    pub count : length ids ≡ n
    pub chosen : Chosen 0 ids first e
    pub sequence : get root_id e.token_ids ≡ some (prompt ++ ids)
    pub consistent : IsConsistent e

  abbrev pub Outcome : InputIds → ℕ → Result (List ℕ × Execution L) → Type 0
  Outcome input n (ok (ids, e)) = Generates input n ids e
  Outcome input n (err z) =
      (prefill L forward x input ≡ err z)
      ⊎ ((first : Execution L) × ((prefill L forward x input ≡ ok first) × Broken 0 n first))
