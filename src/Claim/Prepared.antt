-- ===== src/Claim/Prepared.antt =====
-- The ticket that preparing a claim returns and the file of that ticket.
use simmis.Prelude.{
  ◌≡◌, refl, sym, ap, ◌∙◌, subst, ◌⊎◌, inl, inr, true, false, Option, none, some, ◌==◌, ==_refl,
  list_eq, nat_eq, list_beq_iff, Result, ok, err, >>=-eq-ok, require-eq-ok, ok-injective,
}
use simmis.Files.{File, Directory, create, unlink}
use simmis.Files.Laws.{Leaves, lookup-left, lookup-create, lookup-unlink_other}
use simmis.Host.{Host}
use simmis.Inputs.{canonical_uuid}
use simmis.Inputs.Validate.{canonical_uuid-eq-ok}
use simmis.Claim.{
  staged_name, check_work, load_file, load_found, load, ticket_file, link_over, stage_over,
  prepare_over, prepare_for, identities, prepare, new_ticket,
}
use simmis.Value.{Text, text, Value, str, index, is_str, lookup}

is_str-eq : (t : Text) (v : Value) → is_str (λ s. s == t) v ≡ true → v ≡ str t
unfolding is_str
is_str-eq t (str s) h = ap str ((list_beq_iff s t).0 h)
is_str-eq t _ h = cc

-- The ticket is for this worker and this Run.
pub record IsFor (worker run : Text) (ticket : Value) : Type 0 where
  pub worker_is : index ticket (text "worker") ≡ ok (str worker)
  pub run_is : index ticket (text "run") ≡ ok (str run)

check_work-IsFor :
    (worker run : Text) (t : Value) {ticket : Value}
    → check_work worker run t ≡ ok ticket
    → (t ≡ ticket) × IsFor worker run ticket
unfolding check_work
check_work-IsFor worker run t h =
    let (w, ew, h) = >>=-eq-ok (index t (text "worker")) _ h in
    let (tw, h) = require-eq-ok (is_str (λ s. s == worker) w) _ h in
    let (r, er, h) = >>=-eq-ok (index t (text "run")) _ h in
    let (tr, h) = require-eq-ok (is_str (λ s. s == run) r) _ h in
    let same = ok-injective h in
    (
      same,
      subst (IsFor worker run) same (record {
        worker_is = ew ∙ ap ok (is_str-eq worker w tw);
        run_is = er ∙ ap ok (is_str-eq run r tr);
      }),
    )

module _ (host : Host) where
  -- The ticket's file: one that loads as the ticket, or a new one with the ticket's encoding.
  pub record IsStored (name : Text) (ticket : Value) (d : Directory) : Type 0 where
    pub file : File
    pub file_is : lookup name d ≡ some file
    pub holds : (load_file host file ≡ ok ticket) ⊎ (file ≡ ticket_file host ticket)

  link_over-IsStored :
      (o : Option File) (name : Text) (t : Value) (d : Directory) {ticket : Value}
      → lookup name d ≡ o
      → (link_over host (some (ticket_file host t)) o name t d).0 ≡ ok ticket
      → IsStored name ticket (link_over host (some (ticket_file host t)) o name t d).1
  unfolding link_over load load_found
  link_over-IsStored none name t d free h =
      let same = ok-injective h in
      record {
        file = ticket_file host t;
        file_is = rw (lookup-create name name (ticket_file host t) d, ==_refl name) refl;
        holds = inr (ap (ticket_file host) same);
      }
  link_over-IsStored (some f) name t d taken h = record {
    file = f;
    file_is = taken;
    holds = inl (ap (load_found host) (sym taken) ∙ h);
  }

  IsStored-unlink :
      (hex name : Text) (ticket : Value) (d : Directory)
      → (name == staged_name hex) ≡ false
      → IsStored name ticket d
      → IsStored name ticket (unlink (staged_name hex) d)
  IsStored-unlink hex name ticket d apart s = record {
    file = s.file;
    file_is = lookup-unlink_other (staged_name hex) name s.file d apart s.file_is;
    holds = s.holds;
  }

  stage_over-IsStored :
      (o : Option File) (others : Directory → Directory) (hex name worker run : Text) (t : Value)
      (d : Directory) {ticket : Value}
      → (name == staged_name hex) ≡ false
      → Leaves others (staged_name hex)
      → (stage_over host o others hex name worker run t d).0 ≡ ok ticket
      → IsFor worker run ticket
        × IsStored name ticket (stage_over host o others hex name worker run t d).1
  unfolding stage_over
  stage_over-IsStored (some f) others hex name worker run t d apart left h = cc
  stage_over-IsStored none others hex name worker run t d {ticket} apart left h =
      let staged = others (create (staged_name hex) (ticket_file host t) d) in
      let kept = lookup-left others (staged_name hex) (ticket_file host t) d left in
      let link = λ (o : Option File). link_over host o (lookup name staged) name t staged in
      let linked = link (lookup (staged_name hex) staged) in
      let (u, e, h) = >>=-eq-ok linked.0 (check_work worker run) h in
      let (same, for) = check_work-IsFor worker run u h in
      (
        for,
        IsStored-unlink hex name ticket linked.1 apart (
            subst (λ (o : Option File). (link o).0 ≡ ok ticket → IsStored name ticket (link o).1)
              (sym kept) (link_over-IsStored (lookup name staged) name t staged refl)
              (e ∙ ap ok same)),
      )

  prepare_over-IsStored :
      (o : Option File) (others : Directory → Directory) (hex name worker run : Text) (t : Value)
      (d : Directory) {ticket : Value}
      → lookup name d ≡ o
      → (name == staged_name hex) ≡ false
      → Leaves others (staged_name hex)
      → (prepare_over host o others hex name worker run t d).0 ≡ ok ticket
      → IsFor worker run ticket
        × IsStored name ticket (prepare_over host o others hex name worker run t d).1
  unfolding prepare_over
  prepare_over-IsStored none others hex name worker run t d free apart left h =
      stage_over-IsStored (lookup (staged_name hex) d) others hex name worker run t d apart left h
  prepare_over-IsStored (some f) others hex name worker run t d taken apart left h =
      let (u, e, h) = >>=-eq-ok (load_file host f) (check_work worker run) h in
      let (same, for) = check_work-IsFor worker run u h in
      (for, record { file = f; file_is = taken; holds = inl (e ∙ ap ok same) })

  -- What a prepared claim is: a ticket for the worker and the Run asked for, stored under its name.
  pub record IsPrepared (worker run : Value) (name : Text) (ticket : Value) (d : Directory)
      : Type 0 where
    pub worker_id : Text
    pub run_id : Text
    pub worker_is : worker ≡ str worker_id
    pub run_is : run ≡ str run_id
    pub owned : IsFor worker_id run_id ticket
    pub stored : IsStored name ticket d

  prepare_for-IsPrepared :
      (i : Result (Text × Text)) (others : Directory → Directory) (hex nonce proof name : Text)
      (worker run : Value) (d : Directory) {ticket : Value}
      → identities worker run ≡ i
      → (name == staged_name hex) ≡ false
      → Leaves others (staged_name hex)
      → (prepare_for host i others hex nonce proof name d).0 ≡ ok ticket
      → IsPrepared worker run name ticket (prepare_for host i others hex nonce proof name d).1
  unfolding prepare_for identities
  prepare_for-IsPrepared (err e) others hex nonce proof name worker run d i apart left h = cc
  prepare_for-IsPrepared (ok (w, r)) others hex nonce proof name worker run d i apart left h =
      let (w', ew, i) = >>=-eq-ok (canonical_uuid worker) _ i in
      let (r', er, i) = >>=-eq-ok (canonical_uuid run) _ i in
      let same = ok-injective i in
      let (for, stored) =
        prepare_over-IsStored (lookup name d) others hex name w r (new_ticket w r nonce proof) d
          refl apart left h in
      record {
        worker_id = w;
        run_id = r;
        worker_is = (canonical_uuid-eq-ok worker ew).0 ∙ ap (λ p. str p.0) same;
        run_is = (canonical_uuid-eq-ok run er).0 ∙ ap (λ p. str p.1) same;
        owned = for;
        stored = stored;
      }

  -- Where preparing a claim succeeds, whatever the other processes did before the link but for the
  -- staging file, which they leave alone, the ticket
  -- returned is for the worker and the Run asked for, and the file under the ticket's name, which
  -- is no staging name, either loads as this ticket or is a private file with its encoding.
  pub prepare-IsPrepared :
      (others : Directory → Directory) (hex nonce proof name : Text) (worker run : Value)
      (d : Directory) {ticket : Value}
      → (name == staged_name hex) ≡ false
      → Leaves others (staged_name hex)
      → (prepare host others hex nonce proof name worker run d).0 ≡ ok ticket
      → IsPrepared worker run name ticket (prepare host others hex nonce proof name worker run d).1
  unfolding prepare
  prepare-IsPrepared others hex nonce proof name worker run d apart left h =
      prepare_for-IsPrepared (identities worker run) others hex nonce proof name worker run d refl
        apart left h
