-- ===== src/Exec/Outcomes.antt =====
-- What is known of an action that has returned.
use cr3d_x.Base.{◌≡◌, refl, ap}
use cr3d_x.Types.Port.{Result, ok, threw}
use cr3d_x.Exec.{World, Exec, continue, ◌>>=◌}

continue-eq-ok :
    {A B : Type 0} (r : Result A) (f : A → Exec B) (w : World) {b : B}
    → (continue r f w).0 ≡ ok b
    → (a : A) × (r ≡ ok a) × ((f a w).0 ≡ ok b)
continue-eq-ok (ok a) f w h = (a, refl, h)
continue-eq-ok (threw message) f w h = cc

-- A sequence that returned has returned from both of its parts.
pub bind-eq-ok :
    {A B : Type 0} (m : Exec A) (f : A → Exec B) (w : World) {b : B}
    → ((m >>= f) w).0 ≡ ok b
    → (a : A) × ((m w).0 ≡ ok a) × ((f a (m w).1).0 ≡ ok b)
unfolding ◌>>=◌
bind-eq-ok m f w h = continue-eq-ok (m w).0 f (m w).1 h

-- Where `m` returns, its world has `Q`.
pub record Leaves {A : Type 0} (Q : World → Type 0) (m : Exec A) : Type 0 where
  pub at : (w : World) (a : A) → (m w).0 ≡ ok a → Q (m w).1

pub Leaves-bind :
    {A B : Type 0} {Q : World → Type 0} (m : Exec A) (f : A → Exec B)
    → ((a : A) → Leaves Q (f a))
    → Leaves Q (m >>= f)
unfolding ◌>>=◌
Leaves-bind {Q = Q} m f lf = record { at = λ w b e. continued (m w).0 (m w).1 b e }
  where
    continued :
        (r : Result _) (v : World) (b : _) → (continue r f v).0 ≡ ok b → Q (continue r f v).1
    continued (ok a) v b e = (lf a).at v b e
    continued (threw message) v b e = cc

continue-world :
    {A B : Type 0} (r : Result A) (f : A → Exec B) (w : World) {a : A}
    → r ≡ ok a
    → (continue r f w).1 ≡ (f a w).1
continue-world (ok b) f w e = ap (λ c. (f c w).1) cc
continue-world (threw message) f w e = cc

-- The world of a sequence is the one of its second part.
pub bind-world :
    {A B : Type 0} (m : Exec A) (f : A → Exec B) (w : World) {a : A}
    → (m w).0 ≡ ok a
    → ((m >>= f) w).1 ≡ (f a (m w).1).1
unfolding ◌>>=◌
bind-world m f w e = continue-world (m w).0 f (m w).1 e
