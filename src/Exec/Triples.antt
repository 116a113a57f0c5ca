-- ===== src/Exec/Triples.antt =====
-- What holds after an action that has returned, given what held before it.
use cr3d_x.Base.{String, ◌≡◌, refl, sym, subst, Bool, true, false}
use cr3d_x.Types.Port.{ok}
use cr3d_x.Exec.{World, Exec, pure, throw, ◌>>=◌, require}
use cr3d_x.Exec.Keeps.{Keeps}
use cr3d_x.Exec.Outcomes.{bind-eq-ok, bind-world}

-- From a world with `P`, `m` returns only values and worlds with `Q`.
pub record Ensures {A : Type 0} (P : World → Type 0) (m : Exec A) (Q : A → World → Type 0)
    : Type 0 where
  pub at : (w : World) → P w → (a : A) → (m w).0 ≡ ok a → Q a (m w).1

module _ {A B : Type 0} {P : World → Type 0} {Q : A → World → Type 0} {R : B → World → Type 0} where
  pub Ensures-bind :
      (m : Exec A) (f : A → Exec B)
      → Ensures P m Q
      → ((a : A) → Ensures (Q a) (f a) R)
      → Ensures P (m >>= f) R
  Ensures-bind m f em ef = record {
    at = λ w h b e.
        let (a, ea, eb) = bind-eq-ok m f w e in
        subst (R b) (sym (bind-world m f w ea)) ((ef a).at (m w).1 (em.at w h a ea) b eb);
  }

module _ {A : Type 0} {P : World → Type 0} where
  pub Ensures-pure :
      {Q : A → World → Type 0} (a : A) → ((w : World) → P w → Q a w) → Ensures P (pure a) Q
  unfolding pure
  Ensures-pure {Q = Q} a h = record { at = λ w p b e. subst (λ c. Q c w) (cc) (h w p) }

  pub Ensures-throw : {Q : A → World → Type 0} (message : String) → Ensures P (throw message) Q
  unfolding throw
  Ensures-throw message = record { at = λ w p b e. cc }

  -- What an action keeps, it also has where it returns.
  pub Ensures-kept : (m : Exec A) → Keeps P m → Ensures P m (λ a. P)
  Ensures-kept m k = record { at = λ w p a e. k.at w p }

  pub Ensures-any : (m : Exec A) → Ensures P m (λ _ _. Unit {0})
  Ensures-any m = record { at = λ w p a e. tt }

module _ {P : World → Type 0} where
  pub Ensures-require :
      (b : Bool) (message : String) → Ensures P (require b message) (λ _ w. P w × (b ≡ true))
  unfolding require throw pure
  Ensures-require true message = record { at = λ w p a e. (p, refl) }
  Ensures-require false message = record { at = λ w p a e. cc }

module _ {A : Type 0} {P : World → Type 0} {Q : A → World → Type 0} {C : Type 0} where
  -- A fact that is not of the world is a hypothesis.
  pub Ensures-given : (m : Exec A) → (C → Ensures P m Q) → Ensures (λ w. P w × C) m Q
  Ensures-given m e = record { at = λ w p a r. (e p.1).at w p.0 a r }
