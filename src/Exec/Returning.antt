-- ===== src/Exec/Returning.antt =====
-- Actions that return: one rule for each way to build an action from actions that do.
use cr3d_x.Base.{
  ℕ, String, ◌≡◌, refl, sym, subst, Bool, true, false, Option, none, some, List, [], ◌∷◌, All,
  if◌then◌else◌,
}
use cr3d_x.Types.Port.{Result, ok}
use cr3d_x.Exec.{World, Exec, pure, gets, call, ◌>>=◌, on_option, traverse, for_each, when, require}
use cr3d_x.Exec.Keeps.{Keeps, IsCallProof}
use cr3d_x.Exec.Triples.{Ensures}

-- The call of the outside answers.
pub record IsOk {A : Type 0} (r : Result A) : Type 0 where
  pub value : A
  pub answered : r ≡ ok value

pub IsOk-ok : {A : Type 0} (a : A) → IsOk (ok a)
IsOk-ok a = record { value = a; answered = refl }

-- From a world with `P`, `m` returns, and in a world with `P`.
pub record Returns {A : Type 0} (P : World → Type 0) (m : Exec A) : Type 0 where
  pub at : (w : World) → P w → (a : A) × ((m w).0 ≡ ok a) × P (m w).1

-- From a world with `P`, `m` returns a value and a world with `Q`.
pub record Reaches {A : Type 0} (P : World → Type 0) (m : Exec A) (Q : A → World → Type 0)
    : Type 0 where
  pub at : (w : World) → P w → (a : A) × ((m w).0 ≡ ok a) × Q a (m w).1

module _ {A : Type 0} {P : World → Type 0} where
  pub Returns-pure : (a : A) → Returns P (pure a)
  unfolding pure
  Returns-pure a = record { at = λ w h. (a, refl, h) }

  pub Returns-gets : (f : World → A) → Returns P (gets f)
  unfolding gets
  Returns-gets f = record { at = λ w h. (f w, refl, h) }

  pub Returns-call :
      IsCallProof P → (f : ℕ → Result A) → ((n : ℕ) → IsOk (f n)) → Returns P (call f)
  unfolding call
  Returns-call safe f answers = record {
    at = λ w h. ((answers w.calls).value, (answers w.calls).answered, safe.at w h);
  }

  pub Returns-if :
      (b : Bool) (m n : Exec A) → Returns P m → Returns P n → Returns P (if b then m else n)
  Returns-if true m n rm rn = rm
  Returns-if false m n rm rn = rn

module _ {A B : Type 0} {P : World → Type 0} where
  pub Returns-bind :
      (m : Exec A) (f : A → Exec B)
      → Returns P m
      → ((a : A) → Returns P (f a))
      → Returns P (m >>= f)
  unfolding ◌>>=◌
  Returns-bind m f rm rf = record {
    at = λ w h. let (a, e, k) = rm.at w h in rw e ((rf a).at (m w).1 k);
  }

  -- What is read off the world is known to come from one with `P`.
  pub Returns-read :
      (g : World → A) (f : A → Exec B)
      → ((w : World) → P w → Returns P (f (g w)))
      → Returns P (gets g >>= f)
  unfolding ◌>>=◌ gets
  Returns-read g f rf = record { at = λ w h. (rf w h).at w h }

  -- What is known of the value of `m` helps to see that the rest returns.
  pub Returns-after :
      {C : A → Type 0} (m : Exec A) (f : A → Exec B)
      → Reaches P m (λ a w. C a × P w)
      → ((a : A) → C a → Returns P (f a))
      → Returns P (m >>= f)
  unfolding ◌>>=◌
  Returns-after m f rm rf = record {
    at = λ w h. let (a, e, k) = rm.at w h in rw e ((rf a k.0).at (m w).1 k.1);
  }

  pub Returns-on_option :
      (o : Option A) (m : Exec B) (f : A → Exec B)
      → Returns P m
      → ((a : A) → o ≡ some a → Returns P (f a))
      → Returns P (on_option o m f)
  unfolding on_option
  Returns-on_option none m f rm rf = rm
  Returns-on_option (some a) m f rm rf = rf a refl

module _ {A B : Type 0} {P : World → Type 0} where
  pub Returns-traverse :
      (f : A → Exec B) (xs : List A) → ((a : A) → Returns P (f a)) → Returns P (traverse f xs)
  unfolding traverse
  Returns-traverse f [] rf = Returns-pure []
  Returns-traverse f (x ∷ xs) rf =
      Returns-bind (f x) _ (rf x)
        λ y. Returns-bind (traverse f xs) _ (Returns-traverse f xs rf) λ ys. Returns-pure (y ∷ ys)

module _ {P : World → Type 0} where
  pub Returns-for_each :
      {A : Type 0} {C : A → Type 0} (f : A → Exec Unit) (xs : List A)
      → All C xs
      → ((a : A) → C a → Returns P (f a))
      → Returns P (for_each f xs)
  unfolding for_each
  Returns-for_each f [] all rf = Returns-pure tt
  Returns-for_each f (x ∷ xs) all rf =
      Returns-bind (f x) _ (rf x all.0) (λ _. Returns-for_each f xs all.1 rf)

  pub Returns-when : (b : Bool) (m : Exec Unit) → Returns P m → Returns P (when b m)
  unfolding when
  Returns-when true m rm = rm
  Returns-when false m rm = Returns-pure tt

  pub Returns-require : (b : Bool) (message : String) → b ≡ true → Returns P (require b message)
  unfolding require
  Returns-require b message e = rw e (Returns-pure tt)

module _ {A B : Type 0} {P : World → Type 0} {Q : A → World → Type 0} {R : B → World → Type 0} where
  pub Reaches-bind :
      (m : Exec A) (f : A → Exec B)
      → Reaches P m Q
      → ((a : A) → Reaches (Q a) (f a) R)
      → Reaches P (m >>= f) R
  unfolding ◌>>=◌
  Reaches-bind m f rm rf = record {
    at = λ w h. let (a, e, k) = rm.at w h in rw e ((rf a).at (m w).1 k);
  }

module _ {A B : Type 0} {P : World → Type 0} {R : B → World → Type 0} where
  -- The value that is read off the world is known.
  pub Reaches-read :
      {Q : World → Type 0} (g : World → A) (f : A → Exec B) (a : A)
      → ((w : World) → Q w → (g w ≡ a) × P w)
      → Reaches P (f a) R
      → Reaches Q (gets g >>= f) R
  unfolding ◌>>=◌ gets
  Reaches-read g f a known rf = record {
    at = λ w h.
        let (e, p) = known w h in
        subst (λ c. (b : B) × ((f c w).0 ≡ ok b) × R b (f c w).1) (sym e) (rf.at w p);
  }

  -- A call that answers with `C`, whenever it is made.
  pub Reaches-call :
      {C : A → Type 0}
      → IsCallProof P
      → (g : ℕ → Result A) (f : A → Exec B) → ((n : ℕ) → (a : A) × (g n ≡ ok a) × C a)
      → ((a : A) → C a → Reaches P (f a) R)
      → Reaches P (call g >>= f) R
  unfolding ◌>>=◌ call
  Reaches-call safe g f answers rf = record {
    at = λ w h. let (a, e, c) = answers w.calls in rw e ((rf a c).at _ (safe.at w h));
  }

pub Reaches-returns :
    {A : Type 0} {P : World → Type 0} {m : Exec A} → Returns P m → Reaches P m (λ _ _. Unit {0})
Reaches-returns rm = record { at = λ w h. let (a, e, _) = rm.at w h in (a, e, tt) }

pub Reaches-kept :
    {A : Type 0} {P : World → Type 0} {m : Exec A} → Returns P m → Reaches P m (λ _. P)
Reaches-kept rm = record { at = rm.at }

module _ {A : Type 0} {P : World → Type 0} {Q : A → World → Type 0} where
  pub Reaches-pure : (a : A) → ((w : World) → P w → Q a w) → Reaches P (pure a) Q
  unfolding pure
  Reaches-pure a h = record { at = λ w p. (a, refl, h w p) }

  -- A fact that is not of the world is a hypothesis.
  pub Reaches-given : {C : Type 0} {m : Exec A} → (C → Reaches P m Q) → Reaches (λ w. C × P w) m Q
  Reaches-given rm = record { at = λ w h. (rm h.0).at w h.1 }

module _ {A : Type 0} {P Q : World → Type 0} where
  pub Returns-keeps : {m : Exec A} → Returns P m → Keeps Q m → Returns (λ w. P w × Q w) m
  Returns-keeps rm km = record {
    at = λ w h. let (a, e, k) = rm.at w h.0 in (a, e, (k, km.at w h.1));
  }

  -- What returns has what it ensures where it returns.
  pub Reaches-ensures :
      {R : A → World → Type 0} {m : Exec A}
      → Reaches P m (λ _ _. Unit {0})
      → Ensures Q m R
      → Reaches (λ w. P w × Q w) m R
  Reaches-ensures rm em = record {
    at = λ w h. let (a, e, _) = rm.at w h.0 in (a, e, em.at w h.1 a e);
  }

pub ruleset returns_rules = (
  IsOk-ok, Returns-pure, Returns-gets, Returns-call, Returns-if, Returns-bind, Returns-on_option,
  Returns-traverse, Returns-when,
)
