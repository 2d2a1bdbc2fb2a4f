-- ===== src/Sdk/Trace/Sound.antt =====
-- What every accepted event keeps true of a `TraceAssembler`.
use autotree.Base.{
  ℕ, zero, suc, ◌+◌, ◌≡◌, refl, ap, sym, ◌∙◌, subst, Option, none, some, List, [], ◌∷◌, ◌++◌, arith,
  ◌==◌, ==_iff, length, length-append, Dict, get, set, get-set, inl, inr, Bool-cases, Option-cases,
  ◌⊎◌,
}
use autotree.Sdk.Trace.{
  TraceError, Checked, accepted, rejected, pruned, is_live, RolloutBranch, TraceAssembler, start,
  new_branch, path_from, add_token, with_token, add_pruned,
}

-- 0, 1, ..., n - 1
abbrev upto : ℕ → List ℕ
upto zero = []
upto (suc n) = upto n ++ n ∷ []

length-upto : (n : ℕ) → length (upto n) ≡ n
length-upto zero = refl
length-upto (suc n) = omega (arith, length-append (upto n) (n ∷ []), length-upto n)

abbrev pub spent : Dict RolloutBranch → ℕ
spent [] = 0
spent ((i, b) ∷ rest) = length b.tokens + spent rest

-- the lists of a branch keep step, and its indices are 0, 1, 2, ...
pub record IsEntry (i : ℕ) (b : RolloutBranch) : Type 0 where
  pub named : b.branch_id ≡ i
  pub indices : b.token_indices ≡ upto (length b.tokens)
  pub ids : length b.token_ids ≡ length b.tokens
  pub logprobs : length b.token_logprobs ≡ length b.tokens

pub record IsSound (a : TraceAssembler) : Type 0 where
  pub entries : (i : ℕ) (b : RolloutBranch) → get i a.branches ≡ some b → IsEntry i b
  pub counted : a.token_count ≡ spent a.branches

abbrev pub Sound : Checked TraceAssembler → Type 0
Sound (accepted a) = IsSound a
Sound (rejected e) = Unit {0}

spent-set_new :
    (i : ℕ) (b : RolloutBranch) (d : Dict RolloutBranch)
    → get i d ≡ none
    → spent (set i b d) ≡ spent d + length b.tokens
spent-set_new i b [] h = omega arith
spent-set_new i b ((k, c) ∷ rest) h = ground (arith, h, spent-set_new i b rest)

spent-set_old :
    (i : ℕ) (b old : RolloutBranch) (d : Dict RolloutBranch)
    → get i d ≡ some old
    → spent (set i b d) + length old.tokens ≡ spent d + length b.tokens
spent-set_old i b old [] h = cc
spent-set_old i b old ((k, c) ∷ rest) h = ground (arith, h, spent-set_old i b old rest)

entries-set :
    (a : TraceAssembler) (i : ℕ) (b : RolloutBranch)
    → IsSound a
    → IsEntry i b
    → (j : ℕ) (c : RolloutBranch) → get j (set i b a.branches) ≡ some c
    → IsEntry j c
entries-set a i b s e j c h = elim (Bool-cases (i == j)) [
  | inl here ↦
      let same : b ≡ c = ground (arith, h, get-set j i b a.branches, here) in
      subst (λ k. IsEntry k c) ((==_iff i j).0 here) (subst (IsEntry i) same e)
  | inr there ↦ s.entries j c (ground (arith, h, get-set j i b a.branches, there))
]

-- a branch that ends keeps its tokens
pub ends-IsSound :
    (a : TraceAssembler) (i : ℕ) (b c : RolloutBranch)
    → IsSound a
    → get i a.branches ≡ some b
    → IsEntry i c
    → length c.tokens ≡ length b.tokens
    → IsSound (record a { branches = set i c a.branches })
ends-IsSound a i b c s at e same = record {
  entries = entries-set a i c s e;
  counted = omega (arith, s.counted, spent-set_old i c b a.branches at, same);
}

Checked-cases :
    {A : Type 0} (m : Checked A)
    → ((e : TraceError) × (m ≡ rejected e)) ⊎ ((a : A) × (m ≡ accepted a))
Checked-cases (accepted a) = inr (a, refl)
Checked-cases (rejected e) = inl (e, refl)

pub start-Sound :
    (i : ℕ) (parent : Option ℕ) (a : TraceAssembler) → IsSound a → Sound (start i parent a)
unfolding start
start-Sound i parent a s = elim (Option-cases (get i a.branches)) [
  | inr (b, there) ↦ rw there tt
  | inl fresh ↦
      let begun : (path : List ℕ)
          → IsSound (record a { branches = set i (new_branch i parent path) a.branches }) =
        λ path. record {
          entries =
              entries-set a i (new_branch i parent path) s
                (record { named = refl; indices = refl; ids = refl; logprobs = refl });
          counted =
              omega (arith, s.counted, spent-set_new i (new_branch i parent path) a.branches fresh);
        } in
      elim (Checked-cases (path_from a i parent)) [
        | inl (e, bad) ↦ rw fresh (rw bad tt)
        | inr (path, good) ↦ rw fresh (rw good (begun path))
      ]
]

pub add_token-Sound :
    (i index : ℕ) (text : List ℕ) (id : Option ℕ) (logprob : ℕ) (a : TraceAssembler)
    → IsSound a
    → Sound (add_token i index text id logprob a)
unfolding add_token
add_token-Sound i index text id logprob a s = elim (Option-cases (get i a.branches)) [
  | inl gone ↦ rw gone tt
  | inr (b, there) ↦ elim (Bool-cases (is_live b.status)) [
    | inr over ↦ rw there (rw over tt)
    | inl going ↦ elim (Bool-cases (index == length b.token_indices)) [
      | inr wrong ↦ rw there (rw going (rw wrong tt))
      | inl next ↦
          let e = s.entries i b there in
          let grown : length (b.tokens ++ text ∷ []) ≡ suc (length b.tokens) =
            omega (arith, length-append b.tokens (text ∷ [])) in
          let at : index ≡ length b.tokens =
            (==_iff index (length b.token_indices)).0 next
            ∙ ap length e.indices
            ∙ length-upto (length b.tokens) in
          rw there (
            rw going (
              rw next (record {
                entries = entries-set a i (with_token index text id logprob b) s (record {
                  named = e.named;
                  indices =
                      ap (λ xs. xs ++ index ∷ []) e.indices
                      ∙ ap (λ k. upto (length b.tokens) ++ k ∷ []) at
                      ∙ ap upto (sym grown);
                  ids = omega (arith, length-append b.token_ids (id ∷ []), grown, e.ids);
                  logprobs =
                      omega
                        (arith, length-append b.token_logprobs (logprob ∷ []), grown, e.logprobs);
                });
                counted = omega (
                  arith,
                  s.counted,
                  grown,
                  spent-set_old i (with_token index text id logprob b) b a.branches there,
                );
              })))
    ]
  ]
]

pub add_pruned-Sound :
    (i : ℕ) (reason : List ℕ) (a : TraceAssembler) → IsSound a → Sound (add_pruned i reason a)
unfolding add_pruned
add_pruned-Sound i reason a s = elim (Option-cases (get i a.branches)) [
  | inl gone ↦ rw gone tt
  | inr (b, there) ↦ elim (Bool-cases (is_live b.status)) [
    | inr over ↦ rw there (rw over tt)
    | inl going ↦
        let e = s.entries i b there in
        rw there (
          rw going (
            ends-IsSound a i b (record b { status = pruned; prune_reason = some reason }) s there
              (record { named = e.named; indices = e.indices; ids = e.ids; logprobs = e.logprobs })
              refl))
  ]
]
