-- ===== src/Controller/Order.antt =====
-- The order of the calls of a controller: which calls wait for which records.
use simmis.Prelude.{
  ◌≡◌, refl, Bool, true, false, ◌||◌, List, ◌∷◌, list_eq, nat_eq, list_beq, ◌==◌, Result, ok, err,
  Error,
}
use simmis.Program.{M, ◌>>=◌, ◌>>◌, lift, get, attempt, when, finally, caught}
use simmis.Program.Triple.{
  Triple, Keeps, Outcome, Triple-lift, Triple-get, Triple-bind, Triple-modify,
}
use simmis.Controller.Calls.{
  Served, writing, Call, Reply, Entry, Control, State, World, call, recorded, change, request,
  begin, acknowledge, release, seal, launch_unit,
}
use simmis.Value.{Text, text, Value}

-- A tool whose call says nothing final of the Run.
unfoldable pub is_inquiry : Text → Bool
unfolding list_beq
is_inquiry tool = tool == text "simmis_worker-input" || tool == text "simmis_worker-heartbeat"

-- A call that waits for no record.
unfoldable pub is_plain : Call → Bool
unfolding is_inquiry
is_plain (request tool arguments) = is_inquiry tool
is_plain (begin (writing bytes deadline)) = false
is_plain (launch_unit name timeout sci) = false
is_plain (release identity) = false
is_plain (seal run observation output) = false
is_plain (acknowledge run outcome receipt) = false
is_plain _ = true

-- A property of the calls that the plain ones keep.
pub record IsLogged (P : List Entry → Type 0) : Type 0 where
  pub plain :
      (c : Call) (r : Result (Reply c)) (log : List Entry)
      → is_plain c ≡ true
      → P log
      → P (record { call = c; reply = r } ∷ log)

abbrev pub On : {W : Type 0} → (List Entry → Type 0) → State W → Type 0
On P s = P s.log

pub Keeps-lift : {W A : Type 0} (P : State W → Type 0) (r : Result A) → Keeps P (lift r)
Keeps-lift P r = Triple-lift r (λ a s e p. p) (λ x s e p. p)

pub Keeps-bind :
    {W A B : Type 0} (P : State W → Type 0) (m : M (State W) A) (next : A → M (State W) B)
    → Keeps P m
    → ((a : A) → Keeps P (next a))
    → Keeps P (m >>= next)
Keeps-bind P m next t u = Triple-bind m next t u

pub Keeps-get : {W A : Type 0} (P : State W → Type 0) (f : State W → A) → Keeps P (get f)
Keeps-get P f = Triple-get f (λ s p. p)

pub Keeps-change :
    {W : Type 0} (P : List Entry → Type 0) (f : Control → Control) → Keeps (On P) (change {W = W} f)
Keeps-change P f = Triple-modify (λ s. record s { control = f s.control }) (λ s p. p)

pub Keeps-when :
    {W : Type 0} (P : State W → Type 0) (t : Bool) (m : M (State W) (Unit {0}))
    → Keeps P m
    → Keeps P (when t m)
Keeps-when P true m k = k
Keeps-when P false m k = Keeps-lift P (ok tt)

pub Keeps-attempt :
    {W A : Type 0} (P : State W → Type 0) (m : M (State W) A) → Keeps P m → Keeps P (attempt m)
Keeps-attempt {W = W} {A = A} P m k = record { runs = λ s p. both (m s) (k.runs s p) }
  where
    both : (o : Result A × State W) → Outcome (λ _. P) P o → Outcome (λ _. P) P (caught o)
    both (ok a, s) p = p
    both (err e, s) p = p

pub Keeps-finally :
    {W A : Type 0} (P : State W → Type 0) (m : M (State W) A) (end : M (State W) (Unit {0}))
    → Keeps P m
    → Keeps P end
    → Keeps P (finally m end)
Keeps-finally P m end k e =
    Keeps-bind P (attempt m) (λ r. end >> lift r) (Keeps-attempt P m k)
      (λ r. Keeps-bind P end (λ _. lift r) e (λ _. Keeps-lift P r))

-- What is reached where a call returns, and what where it raises.
pub Triple-call :
    {W : Type 0} (world : World W) (c : Call) (P : List Entry → Type 0)
    (Q : Reply c → List Entry → Type 0) (R : List Entry → Type 0)
    → ((r : Reply c) (log : List Entry) → P log → Q r (record { call = c; reply = ok r } ∷ log))
    → ((e : Error) (log : List Entry) → P log → R (record { call = c; reply = err e } ∷ log))
    → Triple (On P) (call world c) (λ r. On (Q r)) (On R)
Triple-call {W = W} world c P Q R q r = record { runs = λ s p. both (world c s.world) s p }
  where
    both :
        (o : Result (Reply c) × W) (s : State W)
        → On P s
        → Outcome (λ a. On (Q a)) (On R) (recorded c o s)
    both (ok a, w) s p = q a s.log p
    both (err e, w) s p = r e s.log p

module _ {W : Type 0} (world : World W) (P : List Entry → Type 0) (logged : IsLogged P) where
  pub Keeps-call : (c : Call) → is_plain c ≡ true → Keeps (On P) (call world c)
  Keeps-call c e =
      Triple-call world c P (λ _. P) P (λ r log p. logged.plain c (ok r) log e p)
        (λ x log p. logged.plain c (err x) log e p)

  -- The calls without a result.
  pub lock-Keeps : Keeps (On P) (call world Call.lock)
  unfolding is_plain
  lock-Keeps = Keeps-call Call.lock refl

  pub unlock-Keeps : Keeps (On P) (call world Call.unlock)
  unfolding is_plain
  unlock-Keeps = Keeps-call Call.unlock refl

  pub check_profile-Keeps : (sci : Value) → Keeps (On P) (call world (Call.check_profile sci))
  unfolding is_plain
  check_profile-Keeps sci = Keeps-call (Call.check_profile sci) refl

  pub start_observer-Keeps : (sci : Bool) → Keeps (On P) (call world (Call.start_observer sci))
  unfolding is_plain
  start_observer-Keeps sci = Keeps-call (Call.start_observer sci) refl

  pub child_directory-Keeps : (run : Text) → Keeps (On P) (call world (Call.child_directory run))
  unfolding is_plain
  child_directory-Keeps run = Keeps-call (Call.child_directory run) refl

  pub spawn_client-Keeps : Keeps (On P) (call world Call.spawn_client)
  unfolding is_plain
  spawn_client-Keeps = Keeps-call Call.spawn_client refl

  pub terminate_client-Keeps : Keeps (On P) (call world Call.terminate_client)
  unfolding is_plain
  terminate_client-Keeps = Keeps-call Call.terminate_client refl

  pub open_enrollment-Keeps :
      (ticket : Value) → Keeps (On P) (call world (Call.open_enrollment ticket))
  unfolding is_plain
  open_enrollment-Keeps ticket = Keeps-call (Call.open_enrollment ticket) refl

  pub open_client-Keeps : (ticket : Value) → Keeps (On P) (call world (Call.open_client ticket))
  unfolding is_plain
  open_client-Keeps ticket = Keeps-call (Call.open_client ticket) refl

  pub close_client-Keeps : Keeps (On P) (call world Call.close_client)
  unfolding is_plain
  close_client-Keeps = Keeps-call Call.close_client refl

  pub admit-Keeps :
      (run : Text) (identity : Value) → Keeps (On P) (call world (Call.admit run identity))
  unfolding is_plain
  admit-Keeps run identity = Keeps-call (Call.admit run identity) refl

  pub open_frames-Keeps : Keeps (On P) (call world Call.open_frames)
  unfolding is_plain
  open_frames-Keeps = Keeps-call Call.open_frames refl

  pub close_child_ends-Keeps : Keeps (On P) (call world Call.close_child_ends)
  unfolding is_plain
  close_child_ends-Keeps = Keeps-call Call.close_child_ends refl

  pub close_frames-Keeps : Keeps (On P) (call world Call.close_frames)
  unfolding is_plain
  close_frames-Keeps = Keeps-call Call.close_frames refl

  pub stop_unit-Keeps : (identity : Value) → Keeps (On P) (call world (Call.stop_unit identity))
  unfolding is_plain
  stop_unit-Keeps identity = Keeps-call (Call.stop_unit identity) refl

  pub abort_launch-Keeps : (name : Value) → Keeps (On P) (call world (Call.abort_launch name))
  unfolding is_plain
  abort_launch-Keeps name = Keeps-call (Call.abort_launch name) refl

  pub retain-Keeps : (identity : Value) → Keeps (On P) (call world (Call.retain identity))
  unfolding is_plain
  retain-Keeps identity = Keeps-call (Call.retain identity) refl

  pub close_observer-Keeps : Keeps (On P) (call world Call.close_observer)
  unfolding is_plain
  close_observer-Keeps = Keeps-call Call.close_observer refl

  pub turn-Keeps : (served : Served) → Keeps (On P) (call world (Call.turn served))
  unfolding is_plain
  turn-Keeps served = Keeps-call (Call.turn served) refl

pub ruleset acts = (
  lock-Keeps, unlock-Keeps, check_profile-Keeps, start_observer-Keeps, child_directory-Keeps,
  spawn_client-Keeps, terminate_client-Keeps, open_enrollment-Keeps, open_client-Keeps,
  close_client-Keeps, admit-Keeps, open_frames-Keeps, close_child_ends-Keeps, close_frames-Keeps,
  stop_unit-Keeps, abort_launch-Keeps, retain-Keeps, close_observer-Keeps, turn-Keeps,
)
