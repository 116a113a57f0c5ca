-- ===== src/Types/Fallible.antt =====
-- Pure functions that may throw, in sequence.
use cr3d_x.Base.{String, ◌≡◌, refl, ap, Bool, true, false, List, [], ◌∷◌}
use cr3d_x.Types.Port.{Result, ok, threw}

infixl 5 ◌>>=◌ ◌>>◌
abbrev pub ◌>>=◌ {ℓ κ} : {A : Type ℓ} {B : Type κ} → Result A → (A → Result B) → Result B
threw message >>= next = threw message
ok value >>= next = next value

abbrev pub ◌>>◌ {κ} : {B : Type κ} → Result (Unit {0}) → Result B → Result B
first >> second = first >>= λ _. second

-- if (!test) throw new Error(message)
abbrev pub guard : Bool → String → Result (Unit {0})
guard true message = ok tt
guard false message = threw message

-- xs.map(f), where f may throw
unfoldable pub map_all {ℓ κ} : {A : Type ℓ} {B : Type κ} → (A → Result B) → List A → Result (List B)
map_all f [] = ok []
map_all f (x ∷ xs) = do y ← f x; ys ← map_all f xs; ok (y ∷ ys)

pub ok-eq {ℓ} : {A : Type ℓ} {a b : A} → ok a ≡ ok b → a ≡ b
ok-eq {a = a} e = ap (λ r. elim r [ ok x ↦ x | threw message ↦ a ]) e

pub bind-eq-ok {ℓ κ} :
    {B : Type κ} {result : B} {A : Type ℓ} (first : Result A) (next : A → Result B)
    → (first >>= next) ≡ ok result
    → (value : A) × (first ≡ ok value) × (next value ≡ ok result)
bind-eq-ok (threw message) next returned = cc
bind-eq-ok (ok value) next returned = (value, refl, returned)

pub guard-eq-ok :
    (test : Bool) (message : String) {u : Unit {0}} → guard test message ≡ ok u → test ≡ true
guard-eq-ok true message e = refl
guard-eq-ok false message e = cc
