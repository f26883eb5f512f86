-- ===== src/Controller/Whole.antt =====
-- The order of the calls in a whole run of a controller.
use simmis.Prelude.{
  ap, subst, list_beq, ◌∷◌, ◌≡◌, refl, Bool, true, false, not, [], Option, none, some, Result, ok,
  err, require,
}
use simmis.Program.{M, ◌>>=◌, ◌>>◌, lift, done, ensure, get, attempt, finally, within}
use simmis.Program.Triple.{Keeps, Outcome, Triple-lift_bind}
use simmis.Controller.{checked_receipt}
use simmis.Controller.Calls.{Call, State, World, call, change}
use simmis.Controller.Lease.{request_stop, exchange, enter, leave}
use simmis.Controller.Order.{
  is_plain, On, Keeps-lift, Keeps-bind, Keeps-get, Keeps-change, Keeps-attempt, Keeps-finally,
  Keeps-call,
}
use simmis.Controller.Serviced.{
  plain, require_live-Keeps, request_stop-Keeps, exchange-Keeps, enter-Keeps, leave-Keeps,
}
use simmis.Controller.Ordered.{Has, Has-logged, IsOrdered, Keeps-needed, Needs}
use simmis.Controller.Aborted.{Stage, recover-Keeps}
use simmis.Controller.Runs.{IsRequesting, attempt_run-Keeps, force-Keeps}
use simmis.Controller.Steps.{Settings, recover, close_if, drop_frames}
use simmis.Controller.Run.{force, attempt_run, leased, claim, claimed, locked, check_sci, run}
use simmis.Host.{Host}
use simmis.Inputs.{canonical_uuid}
use simmis.Inputs.Validate.{canonical_uuid-eq-ok}
use simmis.Value.{Text, text, Value, str, index, dict}

text_or : Value → Text
text_or (str t) = t
text_or _ = []

pub str-injective : (s t : Text) → str s ≡ str t → s ≡ t
unfolding text_or
str-injective s t e = ap text_or e

-- `with` keeps what its parts keep.
pub Keeps-within :
    {W A : Type 0} (P : State W → Type 0) (into out : M (State W) (Unit {0})) (body : M (State W) A)
    → Keeps P into
    → Keeps P out
    → Keeps P body
    → Keeps P (within into out body)
Keeps-within P into out body i o b =
    Keeps-bind P into (λ _. finally body out) i (λ _. Keeps-finally P body out b o)

module _ (host : Host) {W : Type 0} (world : World W) (requesting : IsRequesting world) where
  drop_frames-Keeps : (run : Text) → Keeps (Stage run []) (drop_frames host world)
  unfolding drop_frames is_plain
  drop_frames-Keeps run =
      Keeps-bind (Stage run []) (get (λ s. s.control)) _ (Keeps-get (Stage run []) (λ s. s.control))
        λ c. closed_if c.frames
    where
      closed_if : (t : Bool) → Keeps (Stage run []) (close_if host world t)
      closed_if true = Keeps-call world (Has run []) (Has-logged run []) Call.close_frames refl
      closed_if false = Keeps-lift (Stage run []) (ok tt)

  module _ (settings : Settings) (run : Text) (ticket : Value) (sci : Option Value) where
    leased-Keeps :
        (argv : Option Value)
        → Keeps (Stage run []) (leased host world settings run ticket sci argv)
    unfolding leased
    leased-Keeps argv =
        let body = attempt_run host world settings run ticket sci argv in
        Keeps-bind (Stage run []) (change _) _
          (Keeps-change (Has run [])
            (λ c. record c { lease = record { next = none; valid_until = 0 } }))
          λ _.
            Keeps-bind (Stage run []) (force host world settings run ticket sci) _
              (force-Keeps host world requesting settings run ticket sci [])
              λ _.
                Keeps-finally (Stage run []) (attempt body >>= recover host world run)
                  (drop_frames host world)
                  (Keeps-bind (Stage run []) (attempt body) (recover host world run)
                    (Keeps-attempt (Stage run []) body
                      (attempt_run-Keeps host world requesting settings run ticket sci argv))
                    (recover-Keeps host world run))
                  (drop_frames-Keeps run)

    none-Keeps : Keeps (Stage {W = W} run []) (done tt)
    none-Keeps = Keeps-lift (Stage run []) (ok tt)

    claim-Keeps : Keeps (Stage run []) (claim host world settings run ticket sci)
    unfolding claim Needs list_beq
    claim-Keeps =
        Keeps-bind (Stage run []) (lift (index ticket (text "nonce"))) _
          (Keeps-lift (Stage run []) (index ticket (text "nonce")))
          λ nonce.
            let c =
              Call.request (text "simmis_worker-claim")
                (dict ((text "run", str run) ∷ (text "nonce", nonce) ∷ [])) in
            Keeps-bind (Stage run []) (exchange world (done tt) c) _
              (exchange-Keeps world (Has run []) (Has-logged run []) (done tt) c none-Keeps
                (Keeps-needed run world [] c (λ log h t. cc)))
              λ reply.
                Keeps-bind (Stage run []) (lift (checked_receipt reply ticket)) _
                  (Keeps-lift (Stage run []) (checked_receipt reply ticket))
                  λ receipt. require_live-Keeps world (Has run []) (Has-logged run []) receipt

    claimed-Keeps :
        (argv : Option Value)
        → Keeps (Stage run []) (claimed host world settings run ticket sci argv)
    unfolding claimed is_plain
    claimed-Keeps argv =
        let P = Has run [] in
        let logged = Has-logged run [] in
        let stop = request_stop-Keeps world P logged in
        Keeps-bind (Stage run [])
          (within (enter world (done tt) (Call.open_enrollment ticket)) (leave world (done tt))
            (claim host world settings run ticket sci))
          _
          (Keeps-within (Stage run []) (enter world (done tt) (Call.open_enrollment ticket))
            (leave world (done tt)) (claim host world settings run ticket sci)
            (enter-Keeps world P logged (done tt) (Call.open_enrollment ticket) none-Keeps refl)
            (leave-Keeps world P logged (done tt) none-Keeps) claim-Keeps)
          λ _.
            Keeps-within (Stage run []) (enter world (request_stop world) (Call.open_client ticket))
              (leave world (request_stop world)) (leased host world settings run ticket sci argv)
              (enter-Keeps world P logged (request_stop world) (Call.open_client ticket) stop refl)
              (leave-Keeps world P logged (request_stop world) stop) (leased-Keeps argv)

  module _ (settings : Settings) (argv sci : Option Value) where
    locked-Keeps : (run : Text) → Keeps (Stage run []) (locked host world settings run argv sci)
    unfolding locked is_plain
    locked-Keeps run =
        let logged = Has-logged run [] in search (plain, logged, claimed-Keeps) depth 60 fits 6000

    check_sci-Keeps :
        (run : Text) → Keeps (Stage run []) (check_sci host world sci argv settings.config)
    unfolding check_sci is_plain
    check_sci-Keeps run = go sci
      where
        go :
            (sci' : Option Value)
            → Keeps (Stage run []) (check_sci host world sci' argv settings.config)
        go none = Keeps-lift (Stage run []) (ok tt)
        go (some v) = let logged = Has-logged run [] in search (plain, logged) depth 40 fits 4000

    run-Keeps : (name : Text) → Keeps (Stage name []) (run host world settings (str name) argv sci)
    unfolding run is_plain
    run-Keeps name =
        let P = Has name [] in
        let logged = Has-logged name [] in
        Triple-lift_bind (canonical_uuid (str name)) _
          (λ name' e.
            subst (λ (n : Text). Keeps (On P) (checked_run n))
              (str-injective name name' (canonical_uuid-eq-ok (str name) e).0)
              (Keeps-bind (On P) (check_sci host world sci argv settings.config) _
                (check_sci-Keeps name)
                λ _.
                  Keeps-bind (On P) (get (λ s. s.control)) _ (Keeps-get (On P) (λ s. s.control))
                    λ c.
                      Keeps-bind (On P) (ensure (not c.used)) _
                        (Keeps-lift (On P) (require (not c.used)))
                        λ _.
                          Keeps-bind (On P) (change _) _
                            (Keeps-change P (λ c'. record c' { used = true }))
                            λ _.
                              Keeps-within (On P) (call world Call.lock) (call world Call.unlock)
                                (locked host world settings name argv sci)
                                (Keeps-call world P logged Call.lock refl)
                                (Keeps-call world P logged Call.unlock refl) (locked-Keeps name)))
          (λ s p. p)
      where
        checked_run : Text → M (State W) Value
        checked_run n = do
          check_sci host world sci argv settings.config
          c ← get (λ s. s.control)
          ensure (not c.used)
          change (λ c'. record c' { used = true })
          within (call world Call.lock) (call world Call.unlock)
              (locked host world settings n argv sci)

    ended :
        (name : Text) (o : Result Value × State W)
        → Outcome (λ _. Stage name []) (Stage name []) o
        → IsOrdered name o.1.log
    ended name (ok v, s) p = p.ordered
    ended name (err e, s) p = p.ordered

    -- From calls in order for this Run, whatever `Controller.run` calls and whatever of it fails: a
    -- unit is launched only under the name that the Run's launch record has, which is there before; GO
    -- is sent only after the Run's admission is on record, under an identity that the observer
    -- captured; a stop is put on record only for this Run, and only with what a wait for a unit to
    -- stop has observed; a unit is released, the server told of a stop or a completion, which are then of this
    -- Run, and this Run's receipt acknowledged, only after this Run's stop is on record; on the
    -- condition that the request that was encoded is not the bytes of GO.
    pub run-IsOrdered :
        (name : Text) (s : State W)
        → IsOrdered name s.log
        → IsOrdered name (run host world settings (str name) argv sci s).1.log
    run-IsOrdered name s h =
        ended name (run host world settings (str name) argv sci s)
          ((run-Keeps name).runs s (record { ordered = h; held = tt }))
