-- ===== src/Journal/Chain/Linked.antt =====
-- How the records of a chain that `_chain` returns are linked.
use simmis.Prelude.{
  ℕ, ◌≡◌, refl, ap, subst, ◌∙◌, true, List, ◌∷◌, Option, none, some, ok, >>=-eq-ok, require-eq-ok,
  ok-injective, ◌==◌, list_eq, nat_eq, list_beq_iff, contains, list_beq,
}
use simmis.Files.{Directory}
use simmis.Host.{Host}
use simmis.Journal.Records.{
  Phase, launch, admitted, stopped, acknowledged, phase_name, read_record, common, link_of, is_link,
}
use simmis.Journal.Validate.{
  validate_launch, validate_admitted, validate_stopped, validate_acknowledged,
}
use simmis.Journal.Chain.{
  Chain, chain, check_launch, check_admission, check_sealed, check_receipt, is_missing,
}
use simmis.Value.{Text, text, Value, null, str, Dict, closed, item, index, is_int, is_str}
use simmis.Value.Laws.{closed-index}

is_link-eq : (v w : Value) → is_link v w ≡ true → v ≡ w
unfolding is_link
is_link-eq null null h = refl
is_link-eq (str s) (str t) h = ap str ((list_beq_iff s t).0 h)
is_link-eq _ _ h = cc

is_str-eq : (t : Text) (v : Value) → is_str (λ s. s == t) v ≡ true → v ≡ str t
unfolding is_str
is_str-eq t (str s) h = ap str ((list_beq_iff s t).0 h)
is_str-eq t _ h = cc

module _ (host : Host) where
  -- A record of a phase that pins the digest of the record before it, or null.
  pub record Follows (value : Value) (phase : Phase) (previous : Option Value) : Type 0 where
    pub phase_is : index value (text "phase") ≡ ok (str (phase_name phase))
    pub link : Value
    pub link_is : link_of host previous ≡ ok link
    pub previous_is : index value (text "previous") ≡ ok link

  pub common-Follows :
      (value : Value) (phase : Phase) (previous : Option Value) (names : List Text) (version : ℕ)
      {d : Dict}
      → common host value phase previous names version ≡ ok d
      → Follows value phase previous
  unfolding common contains list_beq
  common-Follows value phase previous names version h =
      let all_names = text "version" ∷ text "phase" ∷ text "previous" ∷ names in
      let (d, c, h) = >>=-eq-ok (closed value all_names) _ h in
      let (v, _, h) = >>=-eq-ok (item (text "version") d) _ h in
      let (_, h) = require-eq-ok (is_int version v) _ h in
      let (p, ep, h) = >>=-eq-ok (item (text "phase") d) _ h in
      let (tp, h) = require-eq-ok (is_str (λ s. s == phase_name phase) p) _ h in
      let (expected, el, h) = >>=-eq-ok (link_of host previous) _ h in
      let (given, eg, h) = >>=-eq-ok (item (text "previous") d) _ h in
      let (tl, h) = require-eq-ok (is_link given expected) _ h in
      record {
        phase_is =
            closed-index value all_names (text "phase") c
            ∙ ep
            ∙ ap ok (is_str-eq (phase_name phase) p tp);
        link = expected;
        link_is = el;
        previous_is =
            closed-index value all_names (text "previous") c
            ∙ eg
            ∙ ap ok (is_link-eq given expected tl);
      }

  launch-Follows :
      (l : Value) {u : Unit {0}} → validate_launch host l ≡ ok u → Follows l launch none
  unfolding validate_launch
  launch-Follows l h =
      let (d, c, h) = >>=-eq-ok (common host l launch none _ _) _ h in
      common-Follows l launch none _ _ c

  admitted-Follows :
      (a l : Value) {u : Unit {0}} → validate_admitted host a l ≡ ok u → Follows a admitted (some l)
  unfolding validate_admitted
  admitted-Follows a l h =
      let (d, c, h) = >>=-eq-ok (common host a admitted (some l) _ _) _ h in
      common-Follows a admitted (some l) _ _ c

  stopped-Follows :
      (s l a : Value) {u : Unit {0}}
      → validate_stopped host s l a ≡ ok u
      → Follows s stopped (some a)
  unfolding validate_stopped
  stopped-Follows s l a h =
      let (d, c, h) = >>=-eq-ok (common host s stopped (some a) _ _) _ h in
      common-Follows s stopped (some a) _ _ c

  acknowledged-Follows :
      (r l s : Value) {u : Unit {0}}
      → validate_acknowledged host r l s ≡ ok u
      → Follows r acknowledged (some s)
  unfolding validate_acknowledged
  acknowledged-Follows r l s h =
      let (d, c, h) = >>=-eq-ok (common host r acknowledged (some s) _ _) _ h in
      common-Follows r acknowledged (some s) _ _ c

  -- A chain without gaps, by how far it goes.
  pub data IsLinked : Option Value → Option Value → Option Value → Option Value → Type 0 where
    nothing : IsLinked none none none none
    up_to_launch : {l : Value} → Follows l launch none → IsLinked (some l) none none none
    up_to_admission :
        {l a : Value}
        → Follows l launch none
        → Follows a admitted (some l)
        → IsLinked (some l) (some a) none none
    up_to_stop :
        {l a s : Value}
        → Follows l launch none
        → Follows a admitted (some l)
        → Follows s stopped (some a)
        → IsLinked (some l) (some a) (some s) none
    up_to_receipt :
        {l a s r : Value}
        → Follows l launch none
        → Follows a admitted (some l)
        → Follows s stopped (some a)
        → Follows r acknowledged (some s)
        → IsLinked (some l) (some a) (some s) (some r)

  from_receipt :
      (l a s : Value) (r : Option Value) {u : Unit {0}}
      → Follows l launch none
      → Follows a admitted (some l)
      → Follows s stopped (some a)
      → check_receipt host l s r ≡ ok u
      → IsLinked (some l) (some a) (some s) r
  unfolding check_receipt
  from_receipt l a s none fl fa fs h = up_to_stop fl fa fs
  from_receipt l a s (some r) fl fa fs h = up_to_receipt fl fa fs (acknowledged-Follows r l s h)

  from_stop :
      (l a : Value) (s r : Option Value) {u : Unit {0}}
      → Follows l launch none
      → Follows a admitted (some l)
      → check_sealed host l a s r ≡ ok u
      → IsLinked (some l) (some a) s r
  unfolding check_sealed is_missing
  from_stop l a none none fl fa h = up_to_admission fl fa
  from_stop l a none (some r) fl fa h = cc
  from_stop l a (some s) r fl fa h =
      let (_, v, h) = >>=-eq-ok (validate_stopped host s l a) (λ _. check_receipt host l s r) h in
      from_receipt l a s r fl fa (stopped-Follows s l a v) h

  from_admission :
      (l : Value) (a s r : Option Value) {u : Unit {0}}
      → Follows l launch none
      → check_admission host l a s r ≡ ok u
      → IsLinked (some l) a s r
  unfolding check_admission is_missing
  from_admission l none none none fl h = up_to_launch fl
  from_admission l none none (some r) fl h = cc
  from_admission l none (some s) r fl h = cc
  from_admission l (some a) s r fl h =
      let (_, v, h) = >>=-eq-ok (validate_admitted host a l) (λ _. check_sealed host l a s r) h in
      from_stop l a s r fl (admitted-Follows a l v) h

  from_launch :
      (l a s r : Option Value) {u : Unit {0}} → check_launch host l a s r ≡ ok u → IsLinked l a s r
  unfolding check_launch is_missing
  from_launch none none none none h = nothing
  from_launch none none none (some r) h = cc
  from_launch none none (some s) r h = cc
  from_launch none (some a) s r h = cc
  from_launch (some l) a s r h =
      let (_, v, h) = >>=-eq-ok (validate_launch host l) (λ _. check_admission host l a s r) h in
      from_admission l a s r (launch-Follows l v) h

  -- What an accepted chain is: the records that the directory's files hold, checked in order.
  pub record IsAdopted (d : Directory) (c : Chain) : Type 0 where
    pub launched_read : read_record host (phase_name launch) d ≡ ok c.launched
    pub admission_read : read_record host (phase_name admitted) d ≡ ok c.admission
    pub sealed_read : read_record host (phase_name stopped) d ≡ ok c.sealed
    pub receipt_read : read_record host (phase_name acknowledged) d ≡ ok c.receipt
    pub checked : check_launch host c.launched c.admission c.sealed c.receipt ≡ ok tt

  pub chain-IsAdopted : (d : Directory) {c : Chain} → chain host d ≡ ok c → IsAdopted d c
  unfolding chain
  chain-IsAdopted d h =
      let (l, el, h) = >>=-eq-ok (read_record host (phase_name launch) d) _ h in
      let (a, ea, h) = >>=-eq-ok (read_record host (phase_name admitted) d) _ h in
      let (s, es, h) = >>=-eq-ok (read_record host (phase_name stopped) d) _ h in
      let (r, er, h) = >>=-eq-ok (read_record host (phase_name acknowledged) d) _ h in
      let (_, k, h) = >>=-eq-ok (check_launch host l a s r) _ h in
      subst (IsAdopted d) (ok-injective h) (record {
        launched_read = el;
        admission_read = ea;
        sealed_read = es;
        receipt_read = er;
        checked = k;
      })

  -- The chain that `_chain` accepts has no later phase without all the earlier ones; each record
  -- names its own phase, and its `previous` is the digest of the record before it, or null for the
  -- launch.
  pub chain-IsLinked :
      (d : Directory) {c : Chain}
      → chain host d ≡ ok c
      → IsLinked c.launched c.admission c.sealed c.receipt
  chain-IsLinked d {c} h =
      from_launch c.launched c.admission c.sealed c.receipt (chain-IsAdopted d h).checked
