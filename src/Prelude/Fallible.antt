-- ===== src/Prelude/Fallible.antt =====
-- Code that returns a value or raises one of its module's errors, and rules for what holds of a
-- value that it returns.
use mathlib.Core.Path.{◌≡◌, refl, subst}
use mathlib.Core.Bool.{Bool, true, false}
use mathlib.Core.List.{List, [], ◌∷◌}
use omarchy_yolo.Prelude.Tests.{if◌then◌else◌}
use omarchy_yolo.Prelude.Lists.{All}

pub data Fallible (E A : Type 0) : Type 0 where
  returns : A → Fallible E A
  raises : E → Fallible E A

infixl 5 ◌>>=◌ ◌>>◌
unfoldable pub ◌>>=◌ : {E A B : Type 0} → Fallible E A → (A → Fallible E B) → Fallible E B
returns a >>= f = f a
raises e >>= f = raises e

abbrev pub ◌>>◌ : {E B : Type 0} → Fallible E (Unit {0}) → Fallible E B → Fallible E B
m >> k = m >>= λ _. k

-- `if test: raise error`
unfoldable pub refuse_if : {E : Type 0} → Bool → E → Fallible E (Unit {0})
refuse_if true e = raises e
refuse_if false e = returns tt

-- `[f(x) for x in xs]`, where `f` may raise
unfoldable pub traverse : {E A B : Type 0} → (A → Fallible E B) → List A → Fallible E (List B)
traverse f [] = returns []
traverse f (x ∷ xs) = let rest = traverse f xs in do y ← f x; ys ← rest; returns (y ∷ ys)

-- What `m` returns satisfies `P`.
pub record Ensures {E A : Type 0} (P : A → Type 0) (m : Fallible E A) : Type 0 where
  pub at : (a : A) → m ≡ returns a → P a

module _ {E A : Type 0} where
  returns-injective : (a b : A) → ◌≡◌ {A = Fallible E A} (returns a) (returns b) → a ≡ b
  returns-injective a b e = cc

  pub Ensures-returns : (P : A → Type 0) (a : A) → P a → Ensures {E = E} P (returns a)
  Ensures-returns P a p = record { at = λ b e. subst P (returns-injective a b e) p }

  pub Ensures-raises : (P : A → Type 0) (e : E) → Ensures P (raises e)
  Ensures-raises P e = record { at = λ a h. cc }

  pub Ensures-unit : (m : Fallible E A) → Ensures (λ _. Unit {0}) m
  Ensures-unit m = record { at = λ a h. tt }

  pub Ensures-map :
      (P Q : A → Type 0) (m : Fallible E A) → Ensures P m → ((a : A) → P a → Q a) → Ensures Q m
  Ensures-map P Q m h f = record { at = λ a e. f a (h.at a e) }

  pub Ensures-if :
      (P : A → Type 0) (b : Bool) (m n : Fallible E A)
      → (b ≡ true → Ensures P m)
      → (b ≡ false → Ensures P n)
      → Ensures P (if b then m else n)
  Ensures-if P true m n hm hn = hm refl
  Ensures-if P false m n hm hn = hn refl

  pub Ensures-refuse :
      (P : A → Type 0) (b : Bool) (e : E) (k : Fallible E A)
      → (b ≡ false → Ensures P k)
      → Ensures P (refuse_if b e >> k)
  unfolding ◌>>=◌ refuse_if
  Ensures-refuse P true e k h = Ensures-raises P e
  Ensures-refuse P false e k h = h refl

module _ {E A B : Type 0} where
  pub Ensures-bind :
      (P : A → Type 0) (Q : B → Type 0) (m : Fallible E A) (f : A → Fallible E B)
      → Ensures P m
      → ((a : A) → P a → Ensures Q (f a))
      → Ensures Q (m >>= f)
  unfolding ◌>>=◌
  Ensures-bind P Q (returns a) f hm hf = hf a (hm.at a refl)
  Ensures-bind P Q (raises e) f hm hf = record { at = λ b h. cc }

module _ {E A B : Type 0} where
  pub Ensures-traverse :
      (P : B → Type 0) (f : A → Fallible E B) (xs : List A)
      → ((a : A) → Ensures P (f a))
      → Ensures (All P) (traverse f xs)
  unfolding traverse
  Ensures-traverse P f [] h = Ensures-returns (All P) [] tt
  Ensures-traverse P f (x ∷ xs) h = Ensures-bind P (All P) (f x) _ (h x) λ y py.
      Ensures-bind (All P) (All P) (traverse f xs) _ (Ensures-traverse P f xs h)
        λ ys pys. Ensures-returns (All P) (y ∷ ys) (py, pys)
