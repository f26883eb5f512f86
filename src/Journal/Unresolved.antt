-- ===== src/Journal/Unresolved.antt =====
-- `unresolved` of scripts/worker_journal.py: every Run of a worker whose outcome is not acknowledged.
use simmis.Prelude.{
  ◌≡◌, refl, ap, subst, ◌∙◌, Bool, true, false, ◌&&◌, ◌||◌, List, [], ◌∷◌, Option, none, some,
  contains, list_eq, nat_eq, ==_refl, ◌==◌, ltb, map, All, Result, ok, err, ◌>>=◌, ◌>>◌, require,
  >>=-eq-ok, require-eq-ok, ok-injective, os_error, if◌then◌else◌, Bool-cases, inl, inr, arith,
}
use simmis.Files.{Directory}
use simmis.Host.{Host}
use simmis.Inputs.{canonical_uuid}
use simmis.Journal.Chain.{Chain, chain}
use simmis.Journal.Prepare.{owner_of}
use simmis.Journal.Records.{phase_name, launch, admitted, stopped}
use simmis.Journal.Validate.{same_text}
use simmis.Value.{Text, text, Value, str, index}
use simmis.Value.Equality.{value_eq}
use simmis.Claim

-- A directory of `runs`: whether it opens as one that is no link, whether it is private, and its files.
pub record RunDirectory : Type 0 where
  pub opens : Bool
  pub private : Bool
  pub files : Directory

-- A Run that is not acknowledged, and its last phase.
abbrev pub Pending : Type 0
Pending = Text × Text

-- The last record that is there.
unfoldable pub last_phase : Chain → Text
last_phase c = elim c.sealed [
  | some s ↦ phase_name stopped
  | none ↦ elim c.admission [
    | some a ↦ phase_name admitted
    | none ↦ elim c.launched [ some l ↦ phase_name launch | none ↦ text "claim-only" ]
  ]
]

unfoldable pub pending_of : Text → Chain → Option Value → Option Pending
unfolding last_phase
pending_of run c none = some (run, last_phase c)
pending_of run c (some receipt) = none

-- str < str
unfoldable pub is_before : Text → Text → Bool
is_before [] [] = false
is_before [] (d ∷ ds) = true
is_before (c ∷ cs) [] = false
is_before (c ∷ cs) (d ∷ ds) = let rest = is_before cs ds in ltb c d || c == d && rest

unfoldable pub insert : Pending → List Pending → List Pending
unfolding is_before
insert p [] = p ∷ []
insert p (q ∷ qs) = let rest = insert p qs in if is_before p.0 q.0 then p ∷ q ∷ qs else q ∷ rest

-- sorted(pending, key=lambda record: record["run"])
unfoldable pub sorted : List Pending → List Pending
unfolding insert
sorted [] = []
sorted (p ∷ ps) = insert p (sorted ps)

unfoldable pub add_pending : Option Pending → List Pending → List Pending
add_pending none pending = pending
add_pending (some p) pending = p ∷ pending

module _ (host : Host) where
  -- `if chain["launch"] is not None and chain["launch"]["owner"] != _owner(ticket): raise`
  unfoldable pub check_owned : Option Value → Value → Result (Unit {0})
  unfolding index owner_of value_eq
  check_owned none ticket = ok tt
  check_owned (some l) ticket = do
    owner ← index l (text "owner")
    own ← owner_of ticket
    require (value_eq host.floats owner own)

  unfoldable pub inspect : Text → Text → RunDirectory → Result (Option Pending)
  unfolding canonical_uuid Claim.load index same_text chain check_owned pending_of
  inspect worker name d = do
    run ← canonical_uuid (str name)
    if d.opens then ok tt else err os_error
    require d.private
    ticket ← Claim.load host (text "claim.json") d.files
    w ← index ticket (text "worker")
    r ← index ticket (text "run")
    require (same_text w (str worker) && same_text r (str run))
    c ← chain host d.files
    check_owned c.launched ticket
    ok (pending_of run c c.receipt)

  unfoldable pub inspect_all : Text → List (Text × RunDirectory) → Result (List Pending)
  unfolding inspect add_pending
  inspect_all worker [] = ok []
  inspect_all worker ((name, d) ∷ runs) = do
    p ← inspect worker name d
    pending ← inspect_all worker runs
    ok (add_pending p pending)

  -- `unresolved`
  unfoldable pub unresolved : Value → List (Text × RunDirectory) → Result (List Pending)
  unfolding canonical_uuid inspect_all sorted
  unresolved worker_value runs = do
    worker ← canonical_uuid worker_value
    pending ← inspect_all worker runs
    ok (sorted pending)

  abbrev pub names : List Pending → List Text
  names pending = map (λ (p : Pending). p.0) pending

  -- A Run that was inspected: its journal is an accepted chain, and it is listed unless the chain ends
  -- with a receipt.
  pub record IsInspected (pending : List Pending) (name : Text) (d : RunDirectory) : Type 0 where
    pub private : d.private ≡ true
    pub records : Chain
    pub accepted : chain host d.files ≡ ok records
    pub listed : records.receipt ≡ none → contains (names pending) name ≡ true

  contains-insert :
      (q : Text) (p : Pending) (ps : List Pending)
      → contains (names (insert p ps)) q ≡ contains (names (p ∷ ps)) q
  unfolding insert contains
  contains-insert q p [] = refl
  contains-insert q p (r ∷ rs) = elim (Bool-cases (is_before p.0 r.0)) [
    | inl e ↦ rw e refl
    | inr e ↦ let ih = contains-insert q p rs in rw (e, ih) (ground arith)
  ]

  sorted-names :
      (q : Text) (ps : List Pending) → contains (names (sorted ps)) q ≡ contains (names ps) q
  unfolding sorted contains
  sorted-names q [] = refl
  sorted-names q (p ∷ ps) =
      contains-insert q p (sorted ps) ∙ ap (λ (b : Bool). q == p.0 || b) (sorted-names q ps)

  same_name : (name : Text) {run : Text} → canonical_uuid (str name) ≡ ok run → name ≡ run
  unfolding canonical_uuid
  same_name name h = ok-injective (require-eq-ok _ _ h).1

  -- What the inspection of one Run has found.
  record IsFound (name : Text) (d : RunDirectory) (p : Option Pending) : Type 0 where
    private : d.private ≡ true
    records : Chain
    accepted : chain host d.files ≡ ok records
    found : pending_of name records records.receipt ≡ p

  inspect-IsFound :
      (worker name : Text) (d : RunDirectory) {p : Option Pending}
      → inspect worker name d ≡ ok p
      → IsFound name d p
  unfolding inspect
  inspect-IsFound worker name d h =
      let (run, u, h) = >>=-eq-ok (canonical_uuid (str name)) _ h in
      let (_, _, h) = >>=-eq-ok (if d.opens then ok tt else err os_error) _ h in
      let (private, h) = require-eq-ok d.private _ h in
      let (ticket, _, h) = >>=-eq-ok (Claim.load host (text "claim.json") d.files) _ h in
      let (w, _, h) = >>=-eq-ok (index ticket (text "worker")) _ h in
      let (r, _, h) = >>=-eq-ok (index ticket (text "run")) _ h in
      let (_, h) = require-eq-ok (same_text w (str worker) && same_text r (str run)) _ h in
      let (c, accepted, h) = >>=-eq-ok (chain host d.files) _ h in
      let (_, _, h) = >>=-eq-ok (check_owned c.launched ticket) _ h in
      record {
        private = private;
        records = c;
        accepted = accepted;
        found = ap (λ (n : Text). pending_of n c c.receipt) (same_name name u) ∙ ok-injective h;
      }

  listed :
      (name : Text) (c : Chain) (receipt : Option Value) {p : Option Pending}
      (pending : List Pending)
      → receipt ≡ none
      → pending_of name c receipt ≡ p
      → contains (names (add_pending p pending)) name ≡ true
  unfolding pending_of add_pending contains
  listed name c none pending e h =
      subst (λ (q : Option Pending). contains (names (add_pending q pending)) name ≡ true) h
        (rw (==_refl name) refl)
  listed name c (some r) pending e h = let e' = e in ground arith

  kept :
      (name : Text) (p : Option Pending) (pending : List Pending)
      → contains (names pending) name ≡ true
      → contains (names (add_pending p pending)) name ≡ true
  unfolding add_pending contains
  kept name none pending h = h
  kept name (some p) pending h = ground (arith, h)

  All-kept :
      (p : Option Pending) (pending : List Pending) (runs : List (Text × RunDirectory))
      → All (λ e. IsInspected pending e.0 e.1) runs
      → All (λ e. IsInspected (add_pending p pending) e.0 e.1) runs
  All-kept p pending [] h = tt
  All-kept p pending ((name, d) ∷ runs) h = (
    record {
      private = h.0.private;
      records = h.0.records;
      accepted = h.0.accepted;
      listed = λ e. kept name p pending (h.0.listed e);
    },
    All-kept p pending runs h.1,
  )

  inspect_all-IsInspected :
      (worker : Text) (runs : List (Text × RunDirectory)) {pending : List Pending}
      → inspect_all worker runs ≡ ok pending
      → All (λ e. IsInspected pending e.0 e.1) runs
  unfolding inspect_all
  inspect_all-IsInspected worker [] h = tt
  inspect_all-IsInspected worker ((name, d) ∷ runs) {pending = found} h =
      let (p, i, h) = >>=-eq-ok (inspect worker name d) _ h in
      let (pending, rest, h) = >>=-eq-ok (inspect_all worker runs) _ h in
      let f = inspect-IsFound worker name d i in
      subst (λ (ps : List Pending). All (λ e. IsInspected ps e.0 e.1) ((name, d) ∷ runs))
        (ok-injective h)
        (
          record {
            private = f.private;
            records = f.records;
            accepted = f.accepted;
            listed = λ e. listed name f.records f.records.receipt pending e f.found;
          },
          All-kept p pending runs (inspect_all-IsInspected worker runs rest),
        )

  All-sorted :
      (pending : List Pending) (runs : List (Text × RunDirectory))
      → All (λ e. IsInspected pending e.0 e.1) runs
      → All (λ e. IsInspected (sorted pending) e.0 e.1) runs
  All-sorted pending [] h = tt
  All-sorted pending ((name, d) ∷ runs) h = (
    record {
      private = h.0.private;
      records = h.0.records;
      accepted = h.0.accepted;
      listed = λ e. sorted-names name pending ∙ h.0.listed e;
    },
    All-sorted pending runs h.1,
  )

  -- Where `unresolved` returns, every entry of the directory of Runs is a private directory whose
  -- journal is an accepted chain, and each Run whose chain does not end with a receipt is listed; so
  -- that an empty list means that every Run is acknowledged.
  pub unresolved-IsInspected :
      (worker : Value) (runs : List (Text × RunDirectory)) {pending : List Pending}
      → unresolved worker runs ≡ ok pending
      → All (λ e. IsInspected pending e.0 e.1) runs
  unfolding unresolved
  unresolved-IsInspected worker runs h =
      let (w, _, h) = >>=-eq-ok (canonical_uuid worker) _ h in
      let (pending, i, h) = >>=-eq-ok (inspect_all w runs) _ h in
      subst (λ (ps : List Pending). All (λ e. IsInspected ps e.0 e.1) runs) (ok-injective h)
        (All-sorted pending runs (inspect_all-IsInspected w runs i))
