-- ===== src/Engine/Requests/Agreed.antt =====
-- The settings of the engine and those of its scheduler fit together.
use autotree.Base.{
  ℕ, zero, suc, ◌≤◌, ◌≡◌, refl, ap, ◌∙◌, subst, Bool, true, false, Option, none, some, ℤ, pos,
  negsuc, arith,
}
use autotree.Engine.{EmvptConfig, ConsensusConfig, Settings}
use autotree.Engine.Requests.{
  RequestError, Checked, valid, refused, ◌>>=◌, Field, integer, boolean, float, other, Policy, beam,
  best_first, mcts, emvpt_policy, Scorer, logprob, self_consistency, unknown_scorer, TreeExecution,
  GenerationRequest, SchedulerConfig, positive_field, natural_field, margin_field, emvpt_of,
  checked_consensus, consensus_of, config_scored, is_external, prepare_for, prepare,
  bad_value_check_interval, bad_value_min_keep, bad_value_warmup_tokens, bad_consensus_interval,
  bad_consensus_warmup, bad_min_survivors,
}

value_or : {A : Type 0} → A → Checked A → A
value_or a (valid b) = b
value_or a (refused x) = a

valid-injective : {A : Type 0} {a b : A} → valid a ≡ valid b → a ≡ b
unfolding value_or
valid-injective {a = a} e = ap (value_or a) e

-- the parts of a chain that was not refused
parts :
    {A B : Type 0} (m : Checked A) (f : A → Checked B) (b : B)
    → (m >>= f) ≡ valid b
    → (a : A) × ((m ≡ valid a) × (f a ≡ valid b))
unfolding ◌>>=◌
parts (valid a) f b e = (a, (refl, e))
parts (refused x) f b e = cc

abbrev HasInterval : Option ConsensusConfig → Type 0
HasInterval none = Unit {0}
HasInterval (some k) = 1 ≤ k.interval

abbrev is_some : Option ConsensusConfig → Bool
is_some none = false
is_some (some k) = true

-- a consensus is looked for where the scheduler's scorer is external
abbrev IsVoted : Option Scorer → Option ConsensusConfig → Type 0
IsVoted scorer o = HasInterval o × (is_some o ≡ is_external scorer)

-- the scheduler has the budget and the scorer of the request
abbrev IsScored : ℕ → Option Scorer → SchedulerConfig → Type 0
IsScored n scorer k = (n ≡ k.budget_tokens) × (is_external scorer ≡ k.external_scorer)

module _ {S : Type 0} where
  positive_field-positive :
      (x : RequestError) (f : Field S) (n : ℕ) → positive_field x f ≡ valid n → 1 ≤ n
  positive_field-positive x (integer (pos zero)) n e = cc
  positive_field-positive x (integer (pos (suc m))) n e = omega (arith, valid-injective e)
  positive_field-positive x (integer (negsuc m)) n e = cc
  positive_field-positive x (boolean b) n e = cc
  positive_field-positive x (float s) n e = cc
  positive_field-positive x other n e = cc

  abbrev HasIntervals : Option (EmvptConfig S) → Type 0
  HasIntervals none = Unit {0}
  HasIntervals (some k) = (1 ≤ k.check_interval) × (1 ≤ k.min_keep)

  -- The settings of a call and the configuration of its scheduler.
  pub record IsAgreed (out : Settings S × SchedulerConfig) : Type 0 where
    pub intervals : HasIntervals (out.0).emvpt
    pub interval : HasInterval (out.0).consensus
    pub budget : (out.0).budget ≡ (out.1).budget_tokens
    pub scorer : is_some (out.0).consensus ≡ (out.1).external_scorer

  checked-IsVoted :
      (t : TreeExecution S) (o : Option ConsensusConfig)
      → checked_consensus t ≡ valid o
      → IsVoted (some self_consistency) o
  checked-IsVoted t o e =
      let (interval, (i, e1)) =
        parts (positive_field bad_consensus_interval t.consensus_interval) _ o e in
      let (warmup, (w, e2)) =
        parts (natural_field bad_consensus_warmup t.consensus_warmup) _ o e1 in
      let (survivors, (k, e3)) = parts (positive_field bad_min_survivors t.min_survivors) _ o e2 in
      subst (IsVoted (some self_consistency)) (valid-injective e3)
        (positive_field-positive bad_consensus_interval t.consensus_interval interval i, refl)

  consensus-IsVoted :
      (t : TreeExecution S) (scorer : Option Scorer) (o : Option ConsensusConfig)
      → consensus_of t scorer ≡ valid o
      → IsVoted scorer o
  consensus-IsVoted t none o e = subst (IsVoted none) (valid-injective e) (tt, refl)
  consensus-IsVoted t (some logprob) o e =
      subst (IsVoted (some logprob)) (valid-injective e) (tt, refl)
  consensus-IsVoted t (some self_consistency) o e = checked-IsVoted t o e
  consensus-IsVoted t (some unknown_scorer) o e =
      subst (IsVoted (some unknown_scorer)) (valid-injective e) (tt, refl)

  config-IsScored :
      (r : GenerationRequest S) (t : TreeExecution S) (scorer : Option Scorer) (k : SchedulerConfig)
      → config_scored r t scorer ≡ valid k
      → IsScored t.budget_tokens scorer k
  config-IsScored r t none k e =
      subst (IsScored t.budget_tokens none) (valid-injective e) (refl, refl)
  config-IsScored r t (some logprob) k e =
      subst (IsScored t.budget_tokens (some logprob)) (valid-injective e) (refl, refl)
  config-IsScored r t (some self_consistency) k e =
      subst (IsScored t.budget_tokens (some self_consistency)) (valid-injective e) (refl, refl)
  config-IsScored r t (some unknown_scorer) k e = cc

  module _ (float_of : ℤ → S) (is_finite is_negative : S → Bool) where
    emvpt-HasIntervals :
        (t : TreeExecution S) (p : Policy) (o : Option (EmvptConfig S))
        → emvpt_of float_of is_finite is_negative t p ≡ valid o
        → HasIntervals o
    emvpt-HasIntervals t beam o e = subst HasIntervals (valid-injective e) tt
    emvpt-HasIntervals t best_first o e = subst HasIntervals (valid-injective e) tt
    emvpt-HasIntervals t mcts o e = subst HasIntervals (valid-injective e) tt
    emvpt-HasIntervals t emvpt_policy o e =
        let (interval, (i, e1)) =
          parts (positive_field bad_value_check_interval t.value_check_interval) _ o e in
        let (margin, (m, e2)) =
          parts (margin_field float_of is_finite is_negative t.value_margin) _ o e1 in
        let (keep, (k, e3)) = parts (positive_field bad_value_min_keep t.value_min_keep) _ o e2 in
        let (warmup, (w, e4)) =
          parts (natural_field bad_value_warmup_tokens t.value_warmup_tokens) _ o e3 in
        subst HasIntervals (valid-injective e4) (
          positive_field-positive bad_value_check_interval t.value_check_interval interval i,
          positive_field-positive bad_value_min_keep t.value_min_keep keep k,
        )

    prepare_for-IsAgreed :
        (d : Option ℕ) (r : GenerationRequest S) (tree : Option (TreeExecution S))
        (out : Settings S × SchedulerConfig)
        → prepare_for float_of is_finite is_negative d r tree ≡ valid out
        → IsAgreed out
    unfolding ◌>>=◌
    prepare_for-IsAgreed d r none out e =
        subst IsAgreed (valid-injective e)
          (record { intervals = tt; interval = tt; budget = refl; scorer = refl })
    prepare_for-IsAgreed d r (some t) out e =
        let (emvpt, (a, e1)) = parts (emvpt_of float_of is_finite is_negative t t.policy) _ out e in
        let (consensus, (b, e2)) = parts (consensus_of t t.scorer) _ out e1 in
        let (scheduler, (c, e3)) = parts (config_scored r t t.scorer) _ out e2 in
        let (interval, is_external_scorer) = consensus-IsVoted t t.scorer consensus b in
        let (budget, scored) = config-IsScored r t t.scorer scheduler c in
        subst IsAgreed (valid-injective e3) (record {
          intervals = emvpt-HasIntervals t t.policy emvpt a;
          interval = interval;
          budget = budget;
          scorer = is_external_scorer ∙ scored;
        })

    -- If a request is not refused, then the intervals at which `generate` prunes and looks for a
    -- consensus, and the least number of branches it keeps, are at least 1; the budget it starts
    -- with is that of the scheduler made for it; and it looks for a consensus exactly where that
    -- scheduler takes its scores from outside.
    pub prepare-IsAgreed :
        (d : Option ℕ) (r : GenerationRequest S) (out : Settings S × SchedulerConfig)
        → prepare float_of is_finite is_negative d r ≡ valid out
        → IsAgreed out
    unfolding prepare
    prepare-IsAgreed d r out e = prepare_for-IsAgreed d r r.tree out e
