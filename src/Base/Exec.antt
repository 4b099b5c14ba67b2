-- ===== src/Base/Exec.antt =====
-- Methods that change a state and may fail: what was written before an error stays written.
use mathlib.Core.List.{List, [], ◌∷◌}
use epochgrid.Base.Outcome.{Result, ok, err}

abbrev pub Exec {ℓ} : Type ℓ → Type ℓ → Type ℓ
Exec S A = S → Result A × S

module _ {ℓ} {S A B : Type ℓ} where
  abbrev pub continue : Result A → (A → Exec S B) → Exec S B
  continue (ok a) f s = f a s
  continue (err e) f s = (err e, s)

  infixl 5 ◌>>=◌
  abbrev pub ◌>>=◌ : Exec S A → (A → Exec S B) → Exec S B
  ◌>>=◌ m f s = continue (m s).0 f (m s).1

module _ {S B : Type 0} where
  infixl 5 ◌>>◌
  abbrev pub ◌>>◌ : Exec S (Unit {0}) → Exec S B → Exec S B
  m >> k = m >>= λ _. k

module _ {ℓ} {S A : Type ℓ} where
  abbrev pub pure : A → Exec S A
  pure a s = (ok a, s)

  abbrev pub lift : Result A → Exec S A
  lift r s = (r, s)

module _ {S A : Type 0} where
  -- `for x in xs { f(x)?; }`
  unfoldable pub for_each : (A → Exec S (Unit {0})) → List A → Exec S (Unit {0})
  for_each f [] s = (ok tt, s)
  for_each f (x ∷ xs) s = continue (f x s).0 (λ _. for_each f xs) (f x s).1

-- A relation that is transitive, and that a step and what follows it move along, the two together
-- move along, whether the step returns or fails.
pub continue-Along {κ} :
    {S A B : Type 0} (R : S → S → Type κ)
    → ((a b c : S) → R a b → R b c → R a c)
    → (r : Result A) (f : A → Exec S B) (s t : S) → R s t
    → ((a : A) → R t (f a t).1)
    → R s (continue r f t).1
continue-Along R trans (ok a) f s t h k = trans s t (f a t).1 h (k a)
continue-Along R trans (err e) f s t h k = h

pub bind-Along {κ} :
    {S A B : Type 0} (R : S → S → Type κ)
    → ((a b c : S) → R a b → R b c → R a c)
    → (m : Exec S A) (f : A → Exec S B) (s : S) → R s (m s).1
    → ((a : A) (t : S) → R t (f a t).1)
    → R s ((m >>= f) s).1
bind-Along R trans m f s h k = continue-Along R trans (m s).0 f s (m s).1 h (λ a. k a (m s).1)

pub for_each-Along {κ} :
    {S A : Type 0} (R : S → S → Type κ)
    → ((s : S) → R s s)
    → ((a b c : S) → R a b → R b c → R a c)
    → (f : A → Exec S (Unit {0})) → ((x : A) (s : S) → R s (f x s).1)
    → (xs : List A) (s : S) → R s (for_each f xs s).1
unfolding for_each
for_each-Along R same trans f step [] s = same s
for_each-Along R same trans f step (x ∷ xs) s =
    continue-Along R trans (f x s).0 (λ _. for_each f xs) s (f x s).1 (step x s)
      (λ _. for_each-Along R same trans f step xs (f x s).1)
