-- ===== src/Engine/Ensures.antt =====
-- What holds of the result of a call that may raise, and the rules for its parts.
use autotree.Base.{ℕ, ◌≡◌, refl, ap, subst, Bool, true, false, Option, none, some, List, [], ◌∷◌}
use autotree.Kv.Errors.{Error, Result, ok, err}
use autotree.Kv.Exec.{Exec}
use autotree.Modeling.{Execution}
use autotree.Engine.{Failure, Fallible, done, failed, ◌>>=◌, ◌>>◌, fail_if, need, Run}
use autotree.Engine.Values.{for_each, on_execution, placed}

-- the predicate holds of what the call returns, where it returns
pub record Ensures {A : Type 0} (m : Fallible A) (P : A → Type 0) : Type 0 where
  pub ensured : (a : A) → m ≡ done a → P a

result_of : {A : Type 0} → A → Fallible A → A
result_of a (done b) = b
result_of a (failed x) = a

done-injective : {A : Type 0} {a b : A} → done a ≡ done b → a ≡ b
unfolding result_of
done-injective {a = a} e = ap (result_of a) e

pub Ensures-done : {A : Type 0} (a : A) (P : A → Type 0) → P a → Ensures (done a) P
Ensures-done a P p = record { ensured = λ b e. subst P (done-injective e) p }

pub Ensures-bind :
    {A B : Type 0} (m : Fallible A) (f : A → Fallible B) (P : A → Type 0) (Q : B → Type 0)
    → Ensures m P
    → ((a : A) → P a → Ensures (f a) Q)
    → Ensures (m >>= f) Q
unfolding ◌>>=◌
Ensures-bind (done a) f P Q p k = k a (p.ensured a refl)
Ensures-bind (failed x) f P Q p k = record { ensured = λ b e. cc }

-- a call of which only its success is used
pub Ensures-then :
    {A B : Type 0} (m : Fallible A) (n : Fallible B) (Q : B → Type 0)
    → (((a : A) → m ≡ done a → Ensures n Q))
    → Ensures (m >> n) Q
unfolding ◌>>◌
Ensures-then (done a) n Q k = k a refl
Ensures-then (failed x) n Q k = record { ensured = λ b e. cc }

pub Ensures-bound :
    {A B : Type 0} (m : Fallible A) (f : A → Fallible B) (Q : B → Type 0)
    → ((a : A) → m ≡ done a → Ensures (f a) Q)
    → Ensures (m >>= f) Q
unfolding ◌>>=◌
Ensures-bound (done a) f Q k = k a refl
Ensures-bound (failed x) f Q k = record { ensured = λ b e. cc }

pub Ensures-for_each :
    {A B : Type 0} (xs : List A) (body : A → B → Fallible B) (P : B → Type 0) (b : B)
    → ((a : A) (b : B) → P b → Ensures (body a b) P)
    → P b
    → Ensures (for_each xs body b) P
unfolding for_each
Ensures-for_each [] body P b k p = record { ensured = λ c e. subst P (done-injective e) p }
Ensures-for_each (x ∷ xs) body P b k p =
    Ensures-bind (body x b) (λ b'. for_each xs body b') P P (k x b p)
      (λ b' q. Ensures-for_each xs body P b' k q)

pub need-found : {A : Type 0} (i : ℕ) (o : Option A) (a : A) → need i o ≡ done a → o ≡ some a
need-found i none a e = cc
need-found i (some b) a e = ap some (done-injective e)

pub fail_if-passed : (b : Bool) (x : Failure) (u : Unit {0}) → fail_if b x ≡ done u → b ≡ false
fail_if-passed true x u e = cc
fail_if-passed false x u e = refl

module _ {L S G Sched A : Type 0} (wrap : Error → Failure) (e : Run L S G Sched)
    (P : A × Run L S G Sched → Type 0)
    (k : (a : A) (x : Execution L) → P (a, record e { execution = x })) where
  placed-Ensures : (out : Result A × Execution L) → Ensures (placed wrap e out) P
  placed-Ensures (ok a, x) = record { ensured = λ b q. subst P (done-injective q) (k a x) }
  placed-Ensures (err y, x) = record { ensured = λ b q. cc }

  -- a call of the executor changes nothing but the execution
  pub Ensures-on_execution : (m : Exec (Execution L) A) → Ensures (on_execution wrap m e) P
  unfolding on_execution
  Ensures-on_execution m = placed-Ensures (m e.execution)
