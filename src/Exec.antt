-- ===== src/Exec.antt =====
-- Methods that act on a state and return `(value, error)`, or panic. What was written before an
-- error or a panic stays written, so the state comes back beside each outcome.
pub mod Keeps
pub mod Triples
pub mod Leads
pub mod Settles
use Prim.Native.String
use truthmetal.Base.{ℕ, ◌≡◌, refl, String, Bool, true, false, Result, ok, err, if◌then◌else◌}

-- The errors of the service: a `*store.ErrNotFound`, or any other with its message.
pub data Error : Type 0 where
  not_found : String → Error
  other : String → Error

-- `err.Error()`
abbrev pub message : Error → String
message (not_found resource) = String.◌++◌ resource " not found"
message (other m) = m

pub data Outcome (A : Type 0) : Type 0 where
  returns : A → Outcome A
  fails : Error → Outcome A
  panics : Outcome A

abbrev pub Exec : Type 0 → Type 0 → Type 0
Exec S A = S → Outcome A × S

abbrev pub caught : {A : Type 0} → Outcome A → Outcome (Result Error A)
caught (returns a) = returns (ok a)
caught (fails e) = returns (err e)
caught panics = panics

abbrev pub dropped : {A : Type 0} → Outcome A → Outcome (Unit {0})
dropped (returns a) = returns tt
dropped (fails e) = returns tt
dropped panics = panics

module _ {S A : Type 0} where
  abbrev pub pure : A → Exec S A
  pure a s = (returns a, s)

  abbrev pub raise : Error → Exec S A
  raise e s = (fails e, s)

  abbrev pub lift : Outcome A → Exec S A
  lift r s = (r, s)

  -- A call whose value or error the caller looks at; a panic goes on.
  abbrev pub attempt : Exec S A → Exec S (Result Error A)
  attempt m s = (caught (m s).0, (m s).1)

  -- `_ = f(…)`
  abbrev pub ignore : Exec S A → Exec S (Unit {0})
  ignore m s = (dropped (m s).0, (m s).1)

module _ {S A B : Type 0} where
  abbrev pub continue : Outcome A → (A → Exec S B) → Exec S B
  continue (returns a) f s = f a s
  continue (fails e) f s = (fails e, s)
  continue panics f s = (panics, s)

  infixl 5 ◌>>=◌
  unfoldable pub ◌>>=◌ : Exec S A → (A → Exec S B) → Exec S B
  ◌>>=◌ m f s = continue (m s).0 f (m s).1

  pub >>=-eq-returns :
      (first : Exec S A) (rest : A → Exec S B) (s : S) {last : B}
      → ((first >>= rest) s).0 ≡ returns last
      → (value : A) × ((first s).0 ≡ returns value) × ((rest value (first s).1).0 ≡ returns last)
  unfolding ◌>>=◌
  >>=-eq-returns first rest s h = returned (first s).0 (first s).1 h
    where
      returned :
          (o : Outcome A) (t : S) {last : B}
          → (continue o rest t).0 ≡ returns last
          → (value : A) × (o ≡ returns value) × ((rest value t).0 ≡ returns last)
      returned (returns a) t h = (a, refl, h)
      returned (fails e) t h = cc
      returned panics t h = cc

module _ {S B : Type 0} where
  infixl 5 ◌>>◌
  abbrev pub ◌>>◌ : Exec S (Unit {0}) → Exec S B → Exec S B
  m >> k = m >>= λ _. k

-- The clock and the generator of ids.
pub record Env (W : Type 0) : Type 0 where
  -- `uuid.NewString()`
  pub new_uuid : Exec W String
  -- `time.Now().UTC()`
  pub now : Exec W ℕ

-- The targets of `errors.As` in the program: `&store.ErrNotFound{}`, a pointer to a struct whose
-- method `Error` has a pointer receiver, and `&nf` for a `nf` of type `*store.ErrNotFound`.
pub data AsTarget : Type 0 where
  struct_target pointer_target : AsTarget

-- The struct type does not implement `error`; the pointer type does.
abbrev implements_error : AsTarget → Bool
implements_error struct_target = false
implements_error pointer_target = true

abbrev pub is_not_found_error : Error → Bool
is_not_found_error (not_found resource) = true
is_not_found_error (other message) = false

-- `errors.As(err, target)` for an `err` that is not nil: it panics unless the target's type
-- implements `error`.
unfoldable pub errors_as : AsTarget → Error → Outcome Bool
errors_as target e = if implements_error target then returns (is_not_found_error e) else panics

-- Reading the clock or making an id changes nothing that a view shows, and does not fail.
pub record IsEnv {W D : Type 0} (env : Env W) (view : W → D) : Type 0 where
  pub uuid : (w : W) → (id : String) × ((env.new_uuid w).0 ≡ returns id)
  pub uuid_reads : (w : W) → view (env.new_uuid w).1 ≡ view w
  pub now : (w : W) → (t : ℕ) × ((env.now w).0 ≡ returns t)
  pub now_reads : (w : W) → view (env.now w).1 ≡ view w
