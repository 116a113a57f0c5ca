-- ===== src/EnvFile/Triples.antt =====
-- What an action on the disk of EnvFile/Machine.antt leaves: one thing where it returns, another where it
-- throws, and an invariant that the disk has at each of its calls.
use cr3d_x.Base.{String, ◌≡◌, refl, Bool, true, false, Option, none, some, All}
use cr3d_x.Types.Port.{Result, ok, threw}
use cr3d_x.EnvFile.Machine.{
  Disk, DiskFault, fault_code, Machine, called, Host, Io, pure, throw, recover, try_catch, go_on,
  ◌>>=◌, require, os,
}

abbrev pub Post : {A : Type 0} → (A → Disk → Type 0) → (Disk → Type 0) → Result A → Disk → Type 0
Post Q E (ok a) d = Q a d
Post Q E (threw message) d = E d

-- The invariant at the calls so far, and what the action leaves.
abbrev pub Leaves :
    {A : Type 0}
    → (Disk → Type 0)
    → (A → Disk → Type 0)
    → (Disk → Type 0)
    → Result A × Machine
    → Type 0
Leaves I Q E (r, m) = All I m.past × Post Q E r m.disk

pub record Triple {A : Type 0} (I P : Disk → Type 0) (io : Io A) (Q : A → Disk → Type 0)
    (E : Disk → Type 0) : Type 0 where
  pub at : (m : Machine) → All I m.past → P m.disk → Leaves I Q E (io m)

module _ {I : Disk → Type 0} where
  module _ {A : Type 0} {P : Disk → Type 0} {Q : A → Disk → Type 0} {E : Disk → Type 0} where
    pub Triple-throw :
        (message : String) → ((d : Disk) → P d → E d) → Triple I P (throw {A = A} message) Q E
    unfolding throw
    Triple-throw message weaker = record { at = λ m i p. (i, weaker m.disk p) }

    os-Leaves :
        (io : Io A)
        → ((d : Disk) → P d → E d)
        → ((d : Disk) → P d → I d)
        → Triple I P io Q E
        → (m : Machine) → All I m.past
        → P m.disk
        → (fault : Option DiskFault)
        → Leaves I Q E (elim fault as (λ _. Result A × Machine) [
          | some fault ↦ (threw (fault_code fault), called m)
          | none ↦ io (called m)
        ])
    unfolding called
    os-Leaves io weaker keeps t m i p (some fault) = ((keeps m.disk p, i), weaker m.disk p)
    os-Leaves io weaker keeps t m i p none = t.at (called m) (keeps m.disk p, i) p

    -- One call: it may fail by itself, where nothing has happened.
    pub Triple-os :
        (host : Host) (io : Io A)
        → ((d : Disk) → P d → E d)
        → ((d : Disk) → P d → I d)
        → Triple I P io Q E
        → Triple I P (os host io) Q E
    unfolding os
    Triple-os host io weaker keeps t = record {
      at = λ m i p. os-Leaves io weaker keeps t m i p (host.fault m.calls);
    }

    pub Triple-weaken :
        {P' : Disk → Type 0} {Q' : A → Disk → Type 0} (io : Io A)
        → ((d : Disk) → P' d → P d)
        → ((a : A) (d : Disk) → Q a d → Q' a d)
        → Triple I P io Q E
        → Triple I P' io Q' E
    Triple-weaken {Q' = Q'} io before after t = record {
      at = λ m i p. weaken (io m).0 (io m).1 (t.at m i (before m.disk p));
    }
      where
        weaken : (r : Result A) (m : Machine) → Leaves I Q E (r, m) → Leaves I Q' E (r, m)
        weaken (ok a) m (i, q) = (i, after a m.disk q)
        weaken (threw message) m l = l

  -- A fact that does not depend on the disk.
  pub Triple-given :
      {A F : Type 0} {P : Disk → Type 0} {Q : A → Disk → Type 0} {E : Disk → Type 0} (io : Io A)
      → (F → Triple I P io Q E)
      → Triple I (λ d. P d × F) io Q E
  Triple-given io t = record { at = λ m i p. (t p.1).at m i p.0 }

  -- A weaker end where it throws.
  pub Triple-weaken_throw :
      {A : Type 0} {P : Disk → Type 0} {Q : A → Disk → Type 0} {E E' : Disk → Type 0} (io : Io A)
      → ((d : Disk) → E d → E' d)
      → Triple I P io Q E
      → Triple I P io Q E'
  Triple-weaken_throw {A = A} {Q = Q} {E = E} {E' = E'} io after t = record {
    at = λ m i p. weaken (io m).0 (io m).1 (t.at m i p);
  }
    where
      weaken : (r : Result A) (m : Machine) → Leaves I Q E (r, m) → Leaves I Q E' (r, m)
      weaken (ok a) m l = l
      weaken (threw message) m (i, e) = (i, after m.disk e)

  module _ {A B : Type 0} {Q : A → Disk → Type 0} {R : B → Disk → Type 0} {E : Disk → Type 0} where
    go_on-Leaves :
        (r : Result A) (f : A → Io B) (m : Machine)
        → Leaves I Q E (r, m)
        → ((a : A) → Triple I (Q a) (f a) R E)
        → Leaves I R E (go_on r f m)
    go_on-Leaves (ok a) f m (i, q) tf = (tf a).at m i q
    go_on-Leaves (threw message) f m (i, e) tf = (i, e)

    pub Triple-bind :
        {P : Disk → Type 0} (io : Io A) (f : A → Io B)
        → Triple I P io Q E
        → ((a : A) → Triple I (Q a) (f a) R E)
        → Triple I P (io >>= f) R E
    unfolding ◌>>=◌
    Triple-bind io f t tf = record {
      at = λ m i p. go_on-Leaves (io m).0 f (io m).1 (t.at m i p) tf;
    }

  module _ {A : Type 0} {Q : A → Disk → Type 0} {E F : Disk → Type 0} where
    recover-Leaves :
        (r : Result A) (h : String → Io A) (m : Machine)
        → Leaves I Q F (r, m)
        → ((message : String) → Triple I F (h message) Q E)
        → Leaves I Q E (recover r h m)
    recover-Leaves (ok a) h m (i, q) th = (i, q)
    recover-Leaves (threw message) h m (i, f) th = (th message).at m i f

    pub Triple-try_catch :
        {P : Disk → Type 0} (io : Io A) (h : String → Io A)
        → Triple I P io Q F
        → ((message : String) → Triple I F (h message) Q E)
        → Triple I P (try_catch io h) Q E
    unfolding try_catch
    Triple-try_catch io h t th = record {
      at = λ m i p. recover-Leaves (io m).0 h (io m).1 (t.at m i p) th;
    }

  -- A call that only looks at the disk.
  module _ {A : Type 0} {P E : Disk → Type 0} where
    pub Triple-look :
        (host : Host) (g : Disk → Result A)
        → ((d : Disk) → P d → E d)
        → ((d : Disk) → P d → I d)
        → Triple I P (os host (λ m. (g m.disk, m))) (λ a d. P d × (g d ≡ ok a)) E
    Triple-look host g weaker keeps =
        Triple-os host _ weaker keeps
          (record { at = λ m i p. (i, looked (g m.disk) m.disk refl p) })
      where
        looked : (r : Result A) (d : Disk) → g d ≡ r → P d → Post (λ a d. P d × (g d ≡ ok a)) E r d
        looked (ok a) d eq p = (p, eq)
        looked (threw message) d eq p = weaker d p

    pub Triple-pure : (a : A) → Triple I P (pure a) (λ _ d. P d) E
    unfolding pure
    Triple-pure a = record { at = λ m i p. (i, p) }

  module _ {P E : Disk → Type 0} where
    pub Triple-require :
        (test : Bool) (message : String)
        → ((d : Disk) → P d → E d)
        → Triple I P (require test message) (λ _ d. P d × (test ≡ true)) E
    unfolding require pure throw
    Triple-require true message weaker = record { at = λ m i p. (i, (p, refl)) }
    Triple-require false message weaker = record { at = λ m i p. (i, weaker m.disk p) }
