-- ===== src/Exec.antt =====
-- The worker's methods as actions on the world: the files of the state directory, the task object
-- that the running method holds, the effects so far, and the number of calls made to the outside.
-- What was written before a throw stays written, so the world comes back beside the error too.
pub mod Keeps
pub mod Returning
pub mod Outcomes
pub mod Triples
use cr3d_x.Base.{ℕ, suc, String, Bool, true, false, Option, none, some, List, [], ◌∷◌}
use cr3d_x.Types.{Hex, WorkerState, WorkerTask, LogicalTask, InFlightEnvelope, InFlightReceipt}
use cr3d_x.Types.Port.{Result, ok, threw, TransactionRequest}

-- What the worker does to the world outside its memory, newest first.
pub data Effect : Type 0 where
  wrote_state : WorkerState → Effect
  wrote_task : WorkerTask → Effect
  signed : TransactionRequest → Effect
  broadcast : Hex → Effect

-- `established` is what `assertEstablished` finds; `tasks` is the task directory in the order of its
-- sorted names.
pub record World : Type 0 where
  pub established : Bool
  pub state : WorkerState
  pub tasks : List WorkerTask
  pub task : WorkerTask
  pub trace : List Effect
  pub calls : ℕ

abbrev pub Exec : Type 0 → Type 0
Exec A = World → Result A × World

module _ {A : Type 0} where
  unfoldable pub pure : A → Exec A
  pure a w = (ok a, w)

  unfoldable pub throw : String → Exec A
  throw message w = (threw message, w)

  unfoldable pub gets : (World → A) → Exec A
  gets f w = (ok (f w), w)

  -- One call of the outside.
  unfoldable pub call : (ℕ → Result A) → Exec A
  call f w = (f w.calls, record w { calls = suc w.calls })

  abbrev handle : Result A → (String → Exec A) → Exec A
  handle (ok a) h w = (ok a, w)
  handle (threw message) h w = h message w

  -- try { m } catch (error) { h(error) }
  unfoldable pub try_catch : Exec A → (String → Exec A) → Exec A
  try_catch m h w = let (r, w') = m w in handle r h w'

module _ {A B : Type 0} where
  abbrev continue : Result A → (A → Exec B) → Exec B
  continue (ok a) f w = f a w
  continue (threw message) f w = (threw message, w)

  infixl 10 ◌>>=◌ ◌>>◌
  unfoldable pub ◌>>=◌ : Exec A → (A → Exec B) → Exec B
  unfolding pure throw gets call try_catch
  ◌>>=◌ m f w = let (r, w') = m w in continue r f w'

  abbrev pub ◌>>◌ : Exec A → Exec B → Exec B
  m >> n = m >>= λ _. n

-- o === undefined ? m : f(o)
unfoldable pub on_option : {A B : Type 0} → Option A → Exec B → (A → Exec B) → Exec B
on_option none m f = m
on_option (some a) m f = f a

-- Promise.all(xs.map(f)), with the results in order
unfoldable pub traverse : {A B : Type 0} → (A → Exec B) → List A → Exec (List B)
traverse f [] = pure []
traverse f (x ∷ xs) = do y ← f x; ys ← traverse f xs; pure (y ∷ ys)

-- for (const x of xs) await f(x)
unfoldable pub for_each : {A : Type 0} → (A → Exec Unit) → List A → Exec Unit
for_each f [] = pure tt
for_each f (x ∷ xs) = do f x; for_each f xs

unfoldable pub when : Bool → Exec Unit → Exec Unit
when true m = m
when false m = pure tt

-- if (!test) throw new Error(message)
unfoldable pub require : Bool → String → Exec Unit
require true message = pure tt
require false message = throw message

-- Assignments to the task object. `modify_logical` reaches all but the envelope.
unfoldable pub modify_logical : (LogicalTask → LogicalTask) → Exec Unit
modify_logical f w = (ok tt, record w { task = record w.task { logical = f w.task.logical } })

-- The envelope's optional receipt fields, set or deleted.
unfoldable pub note_receipt : Option InFlightReceipt → Exec Unit
note_receipt r w = (
  ok tt,
  record w {
    task = record w.task {
      in_flight = elim w.task.in_flight [
        | none ↦ none
        | some envelope ↦ some (record envelope { receipt = r })
      ];
    };
  },
)

-- delete task.inFlight
unfoldable pub release : Exec Unit
release w = (ok tt, record w { task = record w.task { in_flight = none } })

-- The method goes on with another task object.
unfoldable pub open_task : WorkerTask → Exec Unit
open_task t w = (ok tt, record w { task = t })

unfoldable pub get_envelope : Exec (Option InFlightEnvelope)
get_envelope = gets (λ w. w.task.in_flight)

unfoldable pub get_logical : Exec LogicalTask
get_logical = gets (λ w. w.task.logical)
