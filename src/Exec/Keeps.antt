-- ===== src/Exec/Keeps.antt =====
-- Relations between the views of the state before and after an action, on every outcome, with a
-- rule for each way to build an action.
use truthmetal.Base.{◌≡◌, refl, ◌∙◌, Bool, true, false, if◌then◌else◌}
use truthmetal.Exec.{
  Error, Outcome, returns, fails, panics, Exec, pure, raise, lift, attempt, ignore, continue, ◌>>=◌,
}

-- A preorder on views.
pub record IsPreorder {D : Type 0} (R : D → D → Type 0) : Type 0 where
  pub reflexive : (d : D) → R d d
  pub transitive : (d e f : D) → R d e → R e f → R d f

abbrev pub Same : {D : Type 0} → D → D → Type 0
Same d e = e ≡ d

pub record Keeps {S D A : Type 0} (R : D → D → Type 0) (view : S → D) (m : Exec S A) : Type 0 where
  pub at : (s : S) → R (view s) (view (m s).1)

pub Same-preorder : {D : Type 0} → IsPreorder (Same {D = D})
Same-preorder = record { reflexive = λ d. refl; transitive = λ d e f h k. k ∙ h }

module _ {S D : Type 0} {R : D → D → Type 0} (o : IsPreorder R) (view : S → D) where
  pub Keeps-pure : {A : Type 0} (a : A) → Keeps R view (pure a)
  Keeps-pure a = record { at = λ s. o.reflexive (view s) }

  pub Keeps-raise : {A : Type 0} (e : Error) → Keeps {A = A} R view (raise e)
  Keeps-raise e = record { at = λ s. o.reflexive (view s) }

  pub Keeps-lift : {A : Type 0} (r : Outcome A) → Keeps R view (lift r)
  Keeps-lift r = record { at = λ s. o.reflexive (view s) }

  pub Keeps-continue :
      {A B : Type 0} (r : Outcome A) (f : A → Exec S B)
      → ((a : A) → Keeps R view (f a))
      → Keeps R view (continue r f)
  Keeps-continue (returns a) f k = record { at = (k a).at }
  Keeps-continue (fails e) f k = record { at = λ s. o.reflexive (view s) }
  Keeps-continue panics f k = record { at = λ s. o.reflexive (view s) }

  pub Keeps-bind :
      {A B : Type 0} (m : Exec S A) (f : A → Exec S B)
      → Keeps R view m
      → ((a : A) → Keeps R view (f a))
      → Keeps R view (m >>= f)
  unfolding ◌>>=◌
  Keeps-bind m f km kf = record {
    at = λ s. o.transitive _ _ _ (km.at s) ((Keeps-continue (m s).0 f kf).at (m s).1);
  }

module _ {S D : Type 0} {R : D → D → Type 0} (view : S → D) where
  pub Keeps-attempt : {A : Type 0} (m : Exec S A) → Keeps R view m → Keeps R view (attempt m)
  Keeps-attempt m k = record { at = k.at }

  pub Keeps-ignore : {A : Type 0} (m : Exec S A) → Keeps R view m → Keeps R view (ignore m)
  Keeps-ignore m k = record { at = k.at }

  pub Keeps-if :
      {A : Type 0} (b : Bool) (m n : Exec S A)
      → Keeps R view m
      → Keeps R view n
      → Keeps R view (if b then m else n)
  Keeps-if true m n km kn = km
  Keeps-if false m n km kn = kn
