-- ===== src/Modeling/Steps.antt =====
-- `decode` on executions that match their tree.
use autotree.Base.{
  ℕ, ◌+◌, ◌≡◌, refl, ap, sym, subst, ◌∙◌, none, some, List, ◌==◌, inl, inr, ◌⊎◌, Option-cases,
  Bool-cases,
}
use autotree.Kv.Errors.{key_error, Result, ok, err, Result-cases}
use autotree.Kv.Branches.{Branch, lookup}
use autotree.Kv.Gather.{LayerTokens}
use autotree.Kv.Tree.{TreeState, get_branch}
use autotree.Kv.Append.{Tensor, tensor, append_token}
use autotree.Modeling.{
  Executor, Execution, Output, DecodeOutput, Token, token, not_an_int, commit_token, decode,
  gather_layers, validate_cache_shape, last_token,
}
use autotree.Modeling.Consistent.{IsConsistent}
use autotree.Modeling.Appends.{gather_layers-eq}
use autotree.Modeling.Decode.{Moved, Torn, Commits, commit_token-Commits}

append_token-unknown :
    (t : TreeState) (i : ℕ) (k v : Tensor)
    → lookup i t.branches ≡ none
    → append_token i (tensor k) (tensor v) t ≡ (err (key_error i), t)
unfolding append_token
append_token-unknown t i k v gone = rw gone refl

pub token_committed :
    {L : Type 0} (e : Execution L) (i n : ℕ) (keys values : Tensor) (read : Result L)
    → IsConsistent e
    → Commits e i n read (commit_token L i n keys values read e)
unfolding commit_token
token_committed e i n keys values read c = elim (Option-cases (lookup i e.tree.branches)) [
  | inl gone ↦ rw (append_token-unknown e.tree i keys values gone) (inl refl)
  | inr (b, live) ↦ commit_token-Commits e c i b live n keys values read
]

module _ {L : Type 0} (x : Executor)
    (forward_cached : List LayerTokens → ℕ → ℕ → Result (Output L)) where
  -- what the model returned for a token of a branch, from what the pages hold for the branch
  pub record Ran (e : Execution L) (i n : ℕ) (read : Result L) : Type 0 where
    pub branch : Branch
    pub live : lookup i e.tree.branches ≡ some branch
    pub caches : List LayerTokens
    pub gathered : (gather_layers i 0 x.num_layers e.tree).0 ≡ ok caches
    pub output : Output L
    pub ran : forward_cached caches n (branch.num_tokens + 1) ≡ ok output
    pub logits : output.logits ≡ read

  abbrev pub Decodes : Execution L → ℕ → Token → Result (DecodeOutput L) × Execution L → Type 0
  Decodes e i value (ok d, e') =
      (value ≡ token d.token_id)
      × ((d.branch_id ≡ i) × (Ran e i d.token_id (ok d.logits) × Moved e e' i d.token_id d.logits))
  Decodes e i value (err z, e') =
      (e' ≡ e) ⊎ ((n : ℕ) × ((value ≡ token n) × (Ran e i n (err z) × Torn e e' i)))

  committed-Decodes :
      (e : Execution L) (i n : ℕ) (read : Result L) (m : Result (DecodeOutput L) × Execution L)
      → Ran e i n read
      → Commits e i n read m
      → Decodes e i (token n) m
  committed-Decodes e i n read (ok d, e') r (good, (at, (is, m))) = (
    ap token (sym is),
    (
      at,
      (
        subst (λ k. Ran e i k (ok d.logits)) (sym is) (subst (Ran e i n) good r),
        subst (λ k. Moved e e' i k d.logits) (sym is) m,
      ),
    ),
  )
  committed-Decodes e i n read (err z, e') r (inl same) = inl same
  committed-Decodes e i n read (err z, e') r (inr (bad, torn)) =
      inr (n, (refl, (subst (Ran e i n) bad r, torn)))

  -- On an execution whose dicts match its tree, decoding one token runs the model on what the pages
  -- hold for the branch. If it returns, then the branch alone has changed: it has one row more in the
  -- tree, the token id at the end of its ids, and for its logits those that the model returned. If
  -- it raises, then nothing has changed, unless the model returned no logits to read: then only the
  -- row was written.
  pub decode-Decodes :
      (e : Execution L) (i : ℕ) (value : Token)
      → IsConsistent e
      → Decodes e i value (decode L forward_cached x i value e)
  unfolding decode get_branch
  decode-Decodes e i not_an_int c = elim (Bool-cases (e.owner == x.owner)) [
    | inl owned ↦ rw owned (inl refl)
    | inr foreign ↦ rw foreign (inl refl)
  ]
  decode-Decodes e i (token n) c = elim (Bool-cases (e.owner == x.owner)) [
    | inr foreign ↦ rw foreign (inl refl)
    | inl owned ↦ elim (Option-cases (lookup i e.tree.branches)) [
      | inl gone ↦ rw owned (rw gone (inl refl))
      | inr (b, live) ↦
          let (r, read) = gather_layers-eq e.tree i b 0 x.num_layers c.valid live in
          elim (Result-cases r) [
            | inl (error, bad) ↦ rw owned (rw live (rw read (rw bad (inl refl))))
            | inr (caches, good) ↦
                elim (Result-cases (forward_cached caches n (b.num_tokens + 1))) [
                  | inl (error, bad) ↦ rw owned (rw live (rw read (rw good (rw bad (inl refl)))))
                  | inr (out, ran) ↦
                      elim (Result-cases (validate_cache_shape x out.keys (b.num_tokens + 1))) [
                        | inl (error, bad) ↦
                            rw owned (rw live (rw read (rw good (rw ran (rw bad (inl refl))))))
                        | inr (_, shaped) ↦
                            let here : Ran e i n out.logits = record {
                              branch = b;
                              live = live;
                              caches = caches;
                              gathered = ap (λ m. m.0) read ∙ good;
                              output = out;
                              ran = ran;
                              logits = refl;
                            } in
                            rw owned (
                              rw live (
                                rw read (
                                  rw good (
                                    rw ran (
                                      rw shaped (
                                        committed-Decodes e i n out.logits _ here (
                                          token_committed e i n (last_token out.keys)
                                            (last_token out.values) out.logits c)))))))
                      ]
                ]
          ]
    ]
  ]
