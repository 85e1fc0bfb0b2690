-- ===== src/Exec/Settles.antt =====
-- Actions that may fail: from a view with `P` they return with `Q`, or end otherwise with `V`.
use truthmetal.Base.{sym, subst}
use truthmetal.Exec.{Error, Outcome, returns, fails, panics, Exec, pure, raise, continue, ◌>>=◌}
use truthmetal.Exec.Keeps.{Keeps, Same}
use truthmetal.Exec.Triples.{Returns}

module _ {D A : Type 0} (Q : A → D → Type 0) (V : D → Type 0) where
  abbrev pub SettledIn : Outcome A → D → Type 0
  SettledIn (returns a) d = Q a d
  SettledIn (fails e) d = V d
  SettledIn panics d = V d

pub record Settles {S D A : Type 0} (view : S → D) (V : D → Type 0) (P : D → Type 0) (m : Exec S A)
    (Q : A → D → Type 0) : Type 0 where
  pub at : (s : S) → P (view s) → SettledIn Q V (m s).0 (view (m s).1)

module _ {S D : Type 0} {view : S → D} {V : D → Type 0} where
  pub Settles-pure : {A : Type 0} {P : D → Type 0} (a : A) → Settles view V P (pure a) (λ _. P)
  Settles-pure a = record { at = λ s h. h }

  pub Settles-raise : {A : Type 0} {Q : A → D → Type 0} (e : Error) → Settles view V V (raise e) Q
  Settles-raise e = record { at = λ s h. h }

  pub Settles-Returns :
      {A : Type 0} {P : D → Type 0} {Q : A → D → Type 0} {m : Exec S A}
      → Returns view P m Q
      → Settles view V P m Q
  Settles-Returns {Q} {m} k = record {
    at = λ s h. let (a, e, q) = k.run s h in subst (λ o. SettledIn Q V o (view (m s).1)) (sym e) q;
  }

  -- An action that changes nothing.
  pub Settles-Same : {A : Type 0} {m : Exec S A} → Keeps Same view m → Settles view V V m (λ _. V)
  Settles-Same {m} k = record {
    at = λ s h. whole (m s).0 (view (m s).1) (subst V (sym (k.at s)) h);
  }
    where
      whole : {A : Type 0} (o : Outcome A) (d : D) → V d → SettledIn (λ _. V) V o d
      whole (returns a) d h = h
      whole (fails e) d h = h
      whole panics d h = h

  pub Settles-bind :
      {A B : Type 0} {P : D → Type 0} {Q : A → D → Type 0} {R : B → D → Type 0} {m : Exec S A}
      {f : A → Exec S B}
      → Settles view V P m Q
      → ((a : A) → Settles view V (Q a) (f a) R)
      → Settles view V P (m >>= f) R
  unfolding ◌>>=◌
  Settles-bind {Q} {R} {m} {f} km kf = record { at = λ s h. whole (m s).0 (m s).1 (km.at s h) }
    where
      whole :
          (o : Outcome _) (t : S)
          → SettledIn Q V o (view t)
          → SettledIn R V (continue o f t).0 (view (continue o f t).1)
      whole (returns a) t h = (kf a).at t h
      whole (fails e) t h = h
      whole panics t h = h

  -- What holds on each outcome is upheld.
  pub Settles-Keeps :
      {A : Type 0} {m : Exec S A} → Settles view V V m (λ _. V) → Keeps (λ d e. V d → V e) view m
  Settles-Keeps {m} k = record { at = λ s h. whole (m s).0 (view (m s).1) (k.at s h) }
    where
      whole : {A : Type 0} (o : Outcome A) (d : D) → SettledIn (λ _. V) V o d → V d
      whole (returns a) d h = h
      whole (fails e) d h = h
      whole panics d h = h
