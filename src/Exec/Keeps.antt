-- ===== src/Exec/Keeps.antt =====
-- Invariants of actions: one rule for each way to build an action.
use cr3d_x.Base.{
  ℕ, suc, String, ◌≡◌, refl, Bool, true, false, Option, none, some, List, [], ◌∷◌, if◌then◌else◌,
}
use cr3d_x.Types.Port.{Result, ok, threw}
use cr3d_x.Exec.{
  World, Exec, pure, throw, gets, call, handle, try_catch, continue, ◌>>=◌, on_option, traverse,
  for_each, when, require,
}

-- `m` keeps `P`, whether it returns or throws.
pub record Keeps {A : Type 0} (P : World → Type 0) (m : Exec A) : Type 0 where
  pub at : (w : World) → P w → P (m w).1

-- Calls of the outside change nothing that `P` speaks of.
pub record IsCallProof (P : World → Type 0) : Type 0 where
  pub at : (w : World) → P w → P (record w { calls = suc w.calls })

module _ {A : Type 0} {P : World → Type 0} where
  pub Keeps-pure : (a : A) → Keeps P (pure a)
  unfolding pure
  Keeps-pure a = record { at = λ w h. h }

  pub Keeps-throw : (message : String) → Keeps P (throw {A = A} message)
  unfolding throw
  Keeps-throw message = record { at = λ w h. h }

  pub Keeps-gets : (f : World → A) → Keeps P (gets f)
  unfolding gets
  Keeps-gets f = record { at = λ w h. h }

  pub Keeps-call : IsCallProof P → (f : ℕ → Result A) → Keeps P (call f)
  unfolding call
  Keeps-call safe f = record { at = safe.at }

  pub Keeps-if : (b : Bool) (m n : Exec A) → Keeps P m → Keeps P n → Keeps P (if b then m else n)
  Keeps-if true m n km kn = km
  Keeps-if false m n km kn = kn

  handle-keeps :
      (r : Result A) (h : String → Exec A) (w : World)
      → P w
      → ((message : String) → Keeps P (h message))
      → P (handle r h w).1
  handle-keeps (ok a) h w p kh = p
  handle-keeps (threw message) h w p kh = (kh message).at w p

  pub try_catch-keeps :
      (m : Exec A) (h : String → Exec A) (w : World)
      → P (m w).1
      → ((message : String) → Keeps P (h message))
      → P (try_catch m h w).1
  unfolding try_catch
  try_catch-keeps m h w p kh = handle-keeps (m w).0 h (m w).1 p kh

  pub Keeps-try_catch :
      (m : Exec A) (h : String → Exec A)
      → Keeps P m
      → ((message : String) → Keeps P (h message))
      → Keeps P (try_catch m h)
  Keeps-try_catch m h km kh = record { at = λ w p. try_catch-keeps m h w (km.at w p) kh }

module _ {A B : Type 0} where
  pub Keeps-continue :
      (P : World → Type 0) (r : Result A) (f : A → Exec B) (w : World)
      → P w
      → ((a : A) → r ≡ ok a → P (f a w).1)
      → P (continue r f w).1
  Keeps-continue P (ok a) f w p kf = kf a refl
  Keeps-continue P (threw message) f w p kf = p

module _ {A B : Type 0} {P : World → Type 0} where
  pub Keeps-bind :
      (m : Exec A) (f : A → Exec B) → Keeps P m → ((a : A) → Keeps P (f a)) → Keeps P (m >>= f)
  unfolding ◌>>=◌
  Keeps-bind m f km kf = record {
    at = λ w p.
        Keeps-continue P (m w).0 f (m w).1 (km.at w p) (λ a _. (kf a).at (m w).1 (km.at w p));
  }

  -- A call whose answer is remembered.
  pub Keeps-answer :
      (f : ℕ → Result A) (g : A → Exec B)
      → IsCallProof P
      → ((a : A) (n : ℕ) → f n ≡ ok a → Keeps P (g a))
      → Keeps P (call f >>= g)
  unfolding ◌>>=◌ call
  Keeps-answer f g safe kg = record {
    at = λ w p.
        Keeps-continue P (f w.calls) g (record w { calls = suc w.calls }) (safe.at w p)
          λ a e. (kg a w.calls e).at _ (safe.at w p);
  }

  pub Keeps-on_option :
      (o : Option A) (m : Exec B) (f : A → Exec B)
      → Keeps P m
      → ((a : A) → Keeps P (f a))
      → Keeps P (on_option o m f)
  unfolding on_option
  Keeps-on_option none m f km kf = km
  Keeps-on_option (some a) m f km kf = kf a

module _ {A B : Type 0} {P : World → Type 0} where
  pub Keeps-traverse :
      (f : A → Exec B) (xs : List A) → ((a : A) → Keeps P (f a)) → Keeps P (traverse f xs)
  unfolding traverse
  Keeps-traverse f [] kf = Keeps-pure []
  Keeps-traverse f (x ∷ xs) kf =
      Keeps-bind (f x) _ (kf x)
        λ y. Keeps-bind (traverse f xs) _ (Keeps-traverse f xs kf) λ ys. Keeps-pure (y ∷ ys)

module _ {P : World → Type 0} where
  pub Keeps-for_each :
      {A : Type 0} (f : A → Exec Unit) (xs : List A)
      → ((a : A) → Keeps P (f a))
      → Keeps P (for_each f xs)
  unfolding for_each
  Keeps-for_each f [] kf = Keeps-pure tt
  Keeps-for_each f (x ∷ xs) kf = Keeps-bind (f x) _ (kf x) (λ _. Keeps-for_each f xs kf)

  pub Keeps-when : (b : Bool) (m : Exec Unit) → Keeps P m → Keeps P (when b m)
  unfolding when
  Keeps-when true m km = km
  Keeps-when false m km = Keeps-pure tt

  pub Keeps-require : (b : Bool) (message : String) → Keeps P (require b message)
  unfolding require
  Keeps-require true message = Keeps-pure tt
  Keeps-require false message = Keeps-throw message

pub ruleset keeps_rules = (
  Keeps-pure, Keeps-throw, Keeps-gets, Keeps-call, Keeps-if, Keeps-try_catch, Keeps-bind,
  Keeps-on_option, Keeps-traverse, Keeps-for_each, Keeps-when, Keeps-require,
)
