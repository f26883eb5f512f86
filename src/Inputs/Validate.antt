-- ===== src/Inputs/Validate.antt =====
-- `validate` of scripts/worker_inputs.py as a whole: what it accepts, and how it fails.
use simmis.Prelude.{
  sym, ◌∙◌, >>=-eq-ok, ==_refl, ℕ, ◌≤◌, ◌≡◌, refl, ap, true, List, [], ◌∷◌, some, arith, leb,
  leb→le, ◌==◌, list_eq, nat_eq, list_beq, list_beq_iff, contains, ok, require-eq-ok, ok-injective,
  pos, Refuses, Refuses-require, Refuses-ok, Refuses-bind, Bool-cases, inl, inr, and-eq-true,
}
use simmis.Inputs.Bundle.{check_bundle-IsBundle, IsBundle, Refuses-check_bundle}
use simmis.Value.Laws.{
  closed-index, entries-fields, has_exactly_complete, all-contains, closed-IsClosed, Refuses-closed,
  Refuses-item,
}
use simmis.Inputs.{
  dict, length, obj, is_text, is_str, check_bundle, policy, config_fields, frozen_fields, validate,
  index, check_task, check_header, Host, canonical_uuid, is_uuid, check_policy, check_limits,
}
use simmis.Value.{
  index, item, fields, Text, text, Value, str, int, Dict, Fields, end, field, entries, closed, keys,
  lookup, is_int_in, is_int,
}
use simmis.Value.Equality.{value_eq, fields_eq, Floats}

is_int_in-witness :
    (a b : ℕ) (v : Value) → is_int_in a b v ≡ true → (n : ℕ) × (v ≡ int (pos n)) × (a ≤ n) × (n ≤ b)
unfolding is_int_in
is_int_in-witness a b (int (pos n)) h =
    let (low, high) = and-eq-true (leb a n) (leb n b) h in
    (n, refl, leb→le a n low, leb→le n b high)
is_int_in-witness a b _ h = cc

pub canonical_uuid-eq-ok :
    (v : Value) {s : Text} → canonical_uuid v ≡ ok s → (v ≡ str s) × (is_uuid s ≡ true)
unfolding canonical_uuid
canonical_uuid-eq-ok (str u) {s} h =
    let (t, e) = require-eq-ok (is_uuid u) (ok u) h in
    let same : u ≡ s = ok-injective e in (ap str same, rw (← same) t)
canonical_uuid-eq-ok _ h = cc

pub Refuses-canonical_uuid : (v : Value) → Refuses (canonical_uuid v)
unfolding canonical_uuid
Refuses-canonical_uuid v = record { only = λ e h. ground arith }

fields_eq-cons :
    (m : Floats) (j : Text) (w : Value) (fs gs : Fields)
    → fields_eq m (field j w fs) gs ≡ true
    → ((x : Value) × (lookup j (entries gs) ≡ some x)) × (fields_eq m fs gs ≡ true)
unfolding value_eq
fields_eq-cons m j w fs gs h = ground arith

fields_eq-lookup :
    (m : Floats) (fs gs : Fields) (k : Text)
    → fields_eq m fs gs ≡ true
    → contains (keys (entries fs)) k ≡ true
    → (v : Value) × (lookup k (entries gs) ≡ some v)
unfolding contains keys
fields_eq-lookup m end gs k h c = cc
fields_eq-lookup m (field j w fs) gs k h c =
    let ((x, found), rest) = fields_eq-cons m j w fs gs h in
    elim (Bool-cases (k == j)) [
      | inl here ↦ (x, rw ((list_beq_iff k j).0 here) found)
      | inr later ↦ fields_eq-lookup m fs gs k rest (rw later at c)
    ]

Refuses-check_limits : (v : Value) → Refuses (check_limits v)
unfolding check_limits contains list_beq
Refuses-check_limits v =
    let names = text "timeout-ms" ∷ text "settlement" ∷ [] in
    Refuses-bind (closed v names) _ (Refuses-closed v names) λ l c.
      Refuses-bind (item (text "timeout-ms") l) _ (Refuses-item v names (text "timeout-ms") c refl)
        λ t _.
          Refuses-bind (item (text "settlement") l) _
            (Refuses-item v names (text "settlement") c refl)
            λ s _. record { only = λ e h. ground arith }

Refuses-check_policy :
    (given : Dict) (rest : List (Text × ℕ))
    → ((k : Text) → contains (keys rest) k ≡ true → Refuses (item k given))
    → Refuses (check_policy rest given)
unfolding check_policy contains keys
Refuses-check_policy given [] r = Refuses-ok tt
Refuses-check_policy given ((k, n) ∷ rest) r =
    Refuses-bind (item k given) _ (r k (rw (==_refl k) refl)) λ x _.
      Refuses-require (is_int n x) _
        λ _. Refuses-check_policy given rest (λ j h. r j (ground arith))

value_eq-index :
    (m : Floats) (config : Value) (c : Dict) (k : Text)
    → value_eq m (obj (fields c)) config ≡ true
    → contains (keys c) k ≡ true
    → Refuses (index config k)
unfolding value_eq index item
value_eq-index m (obj gs) c k h has =
    let (_, each) =
      and-eq-true (length (entries (fields c)) == length (entries gs)) (fields_eq m (fields c) gs)
        h in
    let (x, found) = fields_eq-lookup m (fields c) gs k each (rw (← entries-fields c) at has) in
    rw found (Refuses-ok x)
value_eq-index m _ c k h has = cc

module _ (host : Host) where
  -- Once the pinned configuration equals the given one, the given one has its fields.
  Refuses-index :
      (pinned config : Value) {c : Dict} (k : Text)
      → closed pinned config_fields ≡ ok c
      → value_eq host.floats pinned config ≡ true
      → contains config_fields k ≡ true
      → Refuses (index config k)
  Refuses-index pinned config {c} k h e m =
      let shape = closed-IsClosed pinned config_fields h in
      value_eq-index host.floats config c k (rw shape.is_obj at e)
        (all-contains config_fields (keys c) k (has_exactly_complete config_fields c shape.exact) m)

  Refuses-check_task :
      (pinned config task : Value) {c : Dict}
      → closed pinned config_fields ≡ ok c
      → Refuses (check_task host pinned config task)
  unfolding check_task contains list_beq
  Refuses-check_task pinned config task c =
      Refuses-require (value_eq host.floats pinned config) _ λ e.
        Refuses-bind (index config (text "adapter")) _
          (Refuses-index pinned config (text "adapter") c e refl)
          λ a _.
            Refuses-require (is_str (contains (text "codex" ∷ text "claude-code" ∷ [])) a) _ λ _.
              Refuses-bind (index config (text "version")) _
                (Refuses-index pinned config (text "version") c e refl)
                λ v _. Refuses-require (is_text 1 200 v) _ λ _.
                  Refuses-bind (index config (text "model")) _
                    (Refuses-index pinned config (text "model") c e refl)
                    λ m _. Refuses-require (is_text 1 200 m) _ λ _.
                      Refuses-bind (index config (text "policy")) _
                        (Refuses-index pinned config (text "policy") c e refl)
                        λ p _.
                          Refuses-require (is_str (λ s. s == text "local-trusted-v1") p) _
                            λ _. record { only = λ e h. ground arith }

  Refuses-check_header :
      (frozen config : Value) {f : Dict}
      → closed frozen frozen_fields ≡ ok f
      → Refuses (check_header host f config)
  unfolding check_header contains list_beq
  Refuses-check_header frozen config {f} c =
      let has = λ (k : Text) (m : contains frozen_fields k ≡ true).
        Refuses-item frozen frozen_fields k c m in
      Refuses-bind (item (text "input-id") f) _ (has (text "input-id") refl) λ u _.
        Refuses-bind (canonical_uuid u) _ (Refuses-canonical_uuid u) λ _ _.
          Refuses-bind (item (text "config") f) _ (has (text "config") refl) λ pinned _.
            Refuses-bind (closed pinned config_fields) _ (Refuses-closed pinned config_fields)
              λ d cd. Refuses-bind (item (text "task") f) _ (has (text "task") refl) λ task _.
                Refuses-bind (check_task host pinned config task) _
                  (Refuses-check_task pinned config task cd)
                  λ _ _.
                    Refuses-bind (item (text "policy") f) _ (has (text "policy") refl) λ stated _.
                      Refuses-bind (closed stated (keys policy)) _
                        (Refuses-closed stated (keys policy))
                        λ given cg.
                          Refuses-bind (check_policy policy given) _
                            (Refuses-check_policy given policy
                              (λ k m. Refuses-item stated (keys policy) k cg m))
                            λ _ _.
                              Refuses-bind (item (text "limits") f) _ (has (text "limits") refl)
                                λ limits _. Refuses-check_limits limits

  -- Whatever values it is given, `validate` accepts or raises a ValueError: no missing key, no wrong
  -- type and no out-of-range number escapes as another exception.
  pub Refuses-validate : (frozen config : Value) → Refuses (validate host frozen config)
  unfolding validate contains list_beq
  Refuses-validate frozen config =
      Refuses-bind (closed frozen frozen_fields) _ (Refuses-closed frozen frozen_fields) λ f c.
        Refuses-bind (check_header host f config) _ (Refuses-check_header frozen config c) λ _ _.
          Refuses-bind (item (text "files") f) _
            (Refuses-item frozen frozen_fields (text "files") c refl)
            λ files _.
              Refuses-bind (check_bundle host files) _ (Refuses-check_bundle host files)
                λ _ _. Refuses-ok frozen

  -- What an accepted input says, read through its own fields.
  pub record IsFrozen (frozen config : Value) : Type 0 where
    pub identity : (u : Text) × (index frozen (text "input-id") ≡ ok (str u)) × (is_uuid u ≡ true)
    pub pinned :
        (c : Value) × (index frozen (text "config") ≡ ok c) × (value_eq host.floats c config ≡ true)
    pub deadline :
        (l : Value) × (t : ℕ) × (index frozen (text "limits") ≡ ok l)
        × (index l (text "timeout-ms") ≡ ok (int (pos t)))
        × (1000 ≤ t)
        × (t ≤ 600000)
    pub bundle : (d : Dict) × (index frozen (text "files") ≡ ok (dict d)) × IsBundle host d

  check_limits-eq-ok :
      (l : Value)
      → check_limits l ≡ ok tt
      → (t : ℕ) × (index l (text "timeout-ms") ≡ ok (int (pos t))) × (1000 ≤ t) × (t ≤ 600000)
  unfolding check_limits
  check_limits-eq-ok l h =
      let names = text "timeout-ms" ∷ text "settlement" ∷ [] in
      let (f, c, h) = >>=-eq-ok (closed l names) _ h in
      let (timeout, et, h) = >>=-eq-ok (item (text "timeout-ms") f) _ h in
      let (settlement, _, h) = >>=-eq-ok (item (text "settlement") f) _ h in
      let within : is_int_in 1000 600000 timeout ≡ true = ground arith in
      let (t, e, low, high) = is_int_in-witness 1000 600000 timeout within in
      (t, closed-index l names (text "timeout-ms") c ∙ et ∙ ap ok e, low, high)

  check_task-eq-ok :
      (pinned config task : Value)
      → check_task host pinned config task ≡ ok tt
      → value_eq host.floats pinned config ≡ true
  unfolding check_task
  check_task-eq-ok pinned config task h = (require-eq-ok (value_eq host.floats pinned config) _ h).0

  -- An input that `validate` accepts is returned unchanged. It names a canonical UUID, its pinned
  -- configuration equals the given one, its deadline is 1000 to 600000 ms, and its files are at most
  -- 100, declare at most 2097152 bytes together, have safe names none of which is a directory of
  -- another, and each carries bytes of the declared size and digest, at most 1048576 of them.
  pub validate-IsFrozen :
      (frozen config : Value) {v : Value}
      → validate host frozen config ≡ ok v
      → (v ≡ frozen) × IsFrozen frozen config
  unfolding validate check_header
  validate-IsFrozen frozen config {v} h =
      let (f, c, h) = >>=-eq-ok (closed frozen frozen_fields) _ h in
      let at = λ (k : Text). closed-index frozen frozen_fields k c in
      let (_, header, h) = >>=-eq-ok (check_header host f config) _ h in
      let (files, ef, h) = >>=-eq-ok (item (text "files") f) _ h in
      let (_, eb, h) = >>=-eq-ok (check_bundle host files) _ h in
      let (u, eu, g) = >>=-eq-ok (item (text "input-id") f) _ header in
      let (s, es, g) = >>=-eq-ok (canonical_uuid u) _ g in
      let (pinned, ep, g) = >>=-eq-ok (item (text "config") f) _ g in
      let (_, _, g) = >>=-eq-ok (closed pinned config_fields) _ g in
      let (task, _, g) = >>=-eq-ok (item (text "task") f) _ g in
      let (_, et, g) = >>=-eq-ok (check_task host pinned config task) _ g in
      let (stated, _, g) = >>=-eq-ok (item (text "policy") f) _ g in
      let (given, _, g) = >>=-eq-ok (closed stated (keys policy)) _ g in
      let (_, _, g) = >>=-eq-ok (check_policy policy given) _ g in
      let (limits, el, g) = >>=-eq-ok (item (text "limits") f) _ g in
      let (isstr, uuid) = canonical_uuid-eq-ok u es in
      let (t, timeout, low, high) = check_limits-eq-ok limits g in
      let (d, shape, good) = check_bundle-IsBundle host files eb in
      (
        sym (ok-injective h),
        record {
          identity = (s, at (text "input-id") ∙ eu ∙ ap ok isstr, uuid);
          pinned = (pinned, at (text "config") ∙ ep, check_task-eq-ok pinned config task et);
          deadline = (limits, t, at (text "limits") ∙ el, timeout, low, high);
          bundle = (d, at (text "files") ∙ ef ∙ ap ok shape, good);
        },
      )
