-- ===== src/Exec/Triples.antt =====
-- Total correctness: from a view with `P` an action returns (or fails with a given error), and
-- the view behind it has `Q`.
use truthmetal.Base.{◌≡◌, refl, ap, ok, Bool, true, false, if◌then◌else◌}
use truthmetal.Exec.{
  Error, returns, fails, Exec, pure, attempt, ignore, caught, dropped, continue, ◌>>=◌,
}

module _ {S D : Type 0} (view : S → D) where
  -- `a` is the value that is returned.
  pub record Returns {A : Type 0} (P : D → Type 0) (m : Exec S A) (Q : A → D → Type 0)
      : Type 0 where
    pub run : (s : S) → P (view s) → (a : A) × ((m s).0 ≡ returns a) × Q a (view (m s).1)

  pub record FailsWith {A : Type 0} (P : D → Type 0) (m : Exec S A) (e : Error) (Q : D → Type 0)
      : Type 0 where
    pub run : (s : S) → P (view s) → ((m s).0 ≡ fails e) × Q (view (m s).1)

module _ {S D : Type 0} {view : S → D} where
  pub Returns-pure :
      {A : Type 0} {P : D → Type 0} (a : A) → Returns view P (pure a) (λ b d. (b ≡ a) × P d)
  Returns-pure a = record { run = λ s p. (a, refl, (refl, p)) }

  pub Returns-bind :
      {A B : Type 0} {P : D → Type 0} {Q : A → D → Type 0} {R : B → D → Type 0} {m : Exec S A}
      {f : A → Exec S B}
      → Returns view P m Q
      → ((a : A) → Returns view (Q a) (f a) R)
      → Returns view P (m >>= f) R
  unfolding ◌>>=◌
  Returns-bind {R = R} {m = m} {f = f} km kf = record {
    run = λ s p.
        let (a, e, q) = km.run s p in
        let (b, e', r) = (kf a).run (m s).1 q in (b, rw (e, continue) e', rw (e, continue) r);
  }

  pub FailsWith-bind :
      {A B : Type 0} {P : D → Type 0} {Q : A → D → Type 0} {R : D → Type 0} {x : Error}
      {m : Exec S A} {f : A → Exec S B}
      → Returns view P m Q
      → ((a : A) → FailsWith view (Q a) (f a) x R)
      → FailsWith view P (m >>= f) x R
  unfolding ◌>>=◌
  FailsWith-bind {m = m} {f = f} km kf = record {
    run = λ s p.
        let (a, e, q) = km.run s p in
        let (e', r) = (kf a).run (m s).1 q in (rw (e, continue) e', rw (e, continue) r);
  }

  -- The first action fails.
  pub FailsWith-first :
      {A B : Type 0} {P R : D → Type 0} {x : Error} {m : Exec S A} (f : A → Exec S B)
      → FailsWith view P m x R
      → FailsWith view P (m >>= f) x R
  unfolding ◌>>=◌
  FailsWith-first {m = m} f k = record {
    run = λ s p. let (e, r) = k.run s p in (rw (e, continue) refl, rw (e, continue) r);
  }

  pub Returns-ignore :
      {A : Type 0} {P : D → Type 0} {Q : A → D → Type 0} {R : D → Type 0} {m : Exec S A}
      → Returns view P m Q
      → ((a : A) (d : D) → Q a d → R d)
      → Returns view P (ignore m) (λ _. R)
  Returns-ignore {m = m} k c = record {
    run = λ s p. let (a, e, q) = k.run s p in (tt, ap dropped e, c a _ q);
  }

  pub Returns-attempt :
      {A : Type 0} {P : D → Type 0} {Q : A → D → Type 0} {m : Exec S A}
      → Returns view P m Q
      → Returns view P (attempt m) (λ r d. (a : A) × (r ≡ ok a) × Q a d)
  Returns-attempt k = record {
    run = λ s p. let (a, e, q) = k.run s p in (ok a, ap caught e, (a, refl, q));
  }

  pub Returns-imp :
      {A : Type 0} {P : D → Type 0} {Q R : A → D → Type 0} {m : Exec S A}
      → Returns view P m Q
      → ((a : A) (d : D) → Q a d → R a d)
      → Returns view P m R
  Returns-imp k c = record { run = λ s p. let (a, e, q) = k.run s p in (a, e, c a _ q) }

  pub Returns-pure_bind :
      {A B : Type 0} {P : D → Type 0} {R : B → D → Type 0} (a : A) (f : A → Exec S B)
      → Returns view P (f a) R
      → Returns view P (pure a >>= f) R
  unfolding ◌>>=◌
  Returns-pure_bind a f k = record { run = k.run }

  -- A fact of the precondition that is not about the view.
  pub Returns-given :
      {A X : Type 0} {P : D → Type 0} {Q : A → D → Type 0} {m : Exec S A}
      → (X → Returns view P m Q)
      → Returns view (λ d. X × P d) m Q
  Returns-given k = record { run = λ s (x, p). (k x).run s p }

  pub Returns-if :
      {A : Type 0} {P : D → Type 0} {Q : A → D → Type 0} (b : Bool) {m n : Exec S A}
      → Returns view P m Q
      → Returns view P n Q
      → Returns view P (if b then m else n) Q
  Returns-if true km kn = km
  Returns-if false km kn = kn
