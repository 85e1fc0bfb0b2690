-- ===== src/Cache/Keys.antt =====
-- When two parameters share a key of the cache.
use Prim.Native.Char.{code}
use Prim.Native.String
use text.Mathlib.TextLemmas.{
  append_assoc, append_cancel_left, nil-append, cons-append, head-eq_of_cons-eq, tail-eq_of_cons-eq,
}
use truthmetal.Base.{String, ◌≡◌, ◌≢◌, refl, sym, ◌∙◌, ap, ap₂}
use truthmetal.Cache.{cache_key}

infixr 65 ◌<>◌
abbrev ◌<>◌ : String → String → String
◌<>◌ = String.◌++◌

-- The text has no colon.
abbrev pub NoColon : String → Type 0
NoColon String.[] = Unit
NoColon (String.◌∷◌ c s) = (code c ≢ b':') × NoColon s

-- A colon at the end of the namespace may as well stand at the start of the key: for any a, b
-- and c the namespace `a:b` with the key `c` has the cache entry of the namespace `a` with the
-- key `b:c`.
pub cache_key_collision :
    (a b c : String) → cache_key (a <> ":" <> b) c ≡ cache_key a (b <> ":" <> c)
unfolding cache_key
cache_key_collision a b c = simp append_assoc

colon-cons : (s : String) → ":" <> s ≡ String.◌∷◌ ":" s
colon-cons s = cons-append ":" String.[] s ∙ ap (String.◌∷◌ ":") (nil-append s)

-- The first colon ends the namespace, where it has none.
split_unique :
    (m n j k : String) → NoColon m → NoColon n → m <> ":" <> j ≡ n <> ":" <> k → (m ≡ n) × (j ≡ k)
split_unique String.[] String.[] j k hm hn e =
    (refl, append_cancel_left ":" j k (sym (nil-append _) ∙ e ∙ nil-append _))
split_unique String.[] (String.◌∷◌ d n) j k hm (nd, hn) e = absurd (
    nd (
      sym (
        ap code
          (head-eq_of_cons-eq (sym (colon-cons j) ∙ sym (nil-append _) ∙ e ∙ cons-append d n _)))))
split_unique (String.◌∷◌ c m) String.[] j k (nc, hm) hn e =
    absurd (
      nc (ap code (head-eq_of_cons-eq (sym (cons-append c m _) ∙ e ∙ nil-append _ ∙ colon-cons k))))
split_unique (String.◌∷◌ c m) (String.◌∷◌ d n) j k (_, hm) (_, hn) e =
    let both = sym (cons-append c m _) ∙ e ∙ cons-append d n _ in
    let (same, rest) = split_unique m n j k hm hn (tail-eq_of_cons-eq both) in
    (ap₂ String.◌∷◌ (head-eq_of_cons-eq both) same, rest)

-- Namespaces without a colon keep their entries of the cache apart: two parameters whose
-- namespaces have no colon share a key of the cache only if both namespace and key agree.
pub cache_key_injective :
    (m n j k : String) → NoColon m → NoColon n → cache_key m j ≡ cache_key n k → (m ≡ n) × (j ≡ k)
unfolding cache_key
cache_key_injective m n j k hm hn e =
    split_unique m n j k hm hn (append_cancel_left "tm:canonical:" _ _ e)
