-- ===== src/Exec/Leads.antt =====
-- What an action establishes where it returns, and upholds on every outcome.
use truthmetal.Base.{◌≡◌, refl}
use truthmetal.Exec.{Outcome, returns, fails, panics, Exec, continue, ◌>>=◌}
use truthmetal.Exec.Keeps.{Keeps}

-- An action that from `V` returns with `Q`, or ends otherwise with `V`.
pub record Leads {S D A : Type 0} (view : S → D) (V : D → Type 0) (m : Exec S A)
    (Q : A → D → Type 0) : Type 0 where
  pub returned : (s : S) (a : A) → V (view s) → (m s).0 ≡ returns a → Q a (view (m s).1)
  pub upheld : (s : S) → V (view s) → V (view (m s).1)

module _ {S D A B : Type 0} {view : S → D} {V : D → Type 0} where
  -- `m` establishes `E`, from which the rest goes on.
  pub Leads-establish :
      {E : D → Type 0} {Q : B → D → Type 0} (m : Exec S A) (f : A → Exec S B)
      → Keeps (λ d e. V d → V e) view m
      → ((s : S) (a : A) → V (view s) → (m s).0 ≡ returns a → E (view (m s).1))
      → ((d : D) → E d → V d)
      → ((a : A) → Leads view E (f a) Q)
      → Leads view V (m >>= f) Q
  unfolding ◌>>=◌
  Leads-establish {E} {Q} m f k made weaken l = record {
    returned = λ s b v e. later (m s).0 (m s).1 b (λ a. made s a v) e;
    upheld = λ s v. kept (m s).0 (m s).1 (k.at s v) (λ a. made s a v);
  }
    where
      later :
          (o : Outcome A) (t : S) (b : B)
          → ((a : A) → o ≡ returns a → E (view t))
          → (continue o f t).0 ≡ returns b
          → Q b (view (continue o f t).1)
      later (returns a) t b h e = (l a).returned t b (h a refl) e
      later (fails x) t b h e = cc
      later panics t b h e = cc

      kept :
          (o : Outcome A) (t : S)
          → V (view t)
          → ((a : A) → o ≡ returns a → E (view t))
          → V (view (continue o f t).1)
      kept (returns a) t v h = weaken _ ((l a).upheld t (h a refl))
      kept (fails x) t v h = v
      kept panics t v h = v

  -- The rest goes on from what `m` kept.
  pub Leads-bind :
      {Q : B → D → Type 0} (m : Exec S A) (f : A → Exec S B)
      → Keeps (λ d e. V d → V e) view m
      → ((a : A) → Leads view V (f a) Q)
      → Leads view V (m >>= f) Q
  Leads-bind m f k l = Leads-establish m f k (λ s a v e. k.at s v) (λ d v. v) l

  -- Behind an action that leads to `Q`, the rest upholds `V` from `Q` on.
  pub Keeps-behind :
      {Q : A → D → Type 0} (m : Exec S A) (f : A → Exec S B)
      → Leads view V m Q
      → ((a : A) (s : S) → Q a (view s) → V (view (f a s).1))
      → Keeps (λ d e. V d → V e) view (m >>= f)
  unfolding ◌>>=◌
  Keeps-behind {Q} m f l k = record {
    at = λ s v. kept (m s).0 (m s).1 (λ a. l.returned s a v) (l.upheld s v);
  }
    where
      kept :
          (o : Outcome A) (t : S)
          → ((a : A) → o ≡ returns a → Q a (view t))
          → V (view t)
          → V (view (continue o f t).1)
      kept (returns a) t h v = k a t (h a refl)
      kept (fails x) t h v = v
      kept panics t h v = v
