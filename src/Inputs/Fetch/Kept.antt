-- ===== src/Inputs/Fetch/Kept.antt =====
-- What the calls of the client keep, and `fetch` around them.
use simmis.Prelude.{
  ℕ, zero, suc, List, Option, none, some, Result, ok, err, ◌++◌, ◌∷◌, [], ◌==◌, nat_eq,
  if◌then◌else◌, Bool, true, false, ◌>>=◌,
}
use simmis.Program.Triple.{Keeps, Outcome}
use simmis.Inputs.Fetch.{
  Client, Identity, Part, chunk_arguments, read_part, fetch_loop, read_bundle, fetch,
}
use simmis.Inputs.{canonical_uuid, max_input_json_bytes}
use simmis.Host.{Host}
use simmis.Value.{Text, text, Bytes, Value}

-- What holds of the state holds of the outcome.
Outcome-of : {S A : Type 0} (P : S → Type 0) (o : Result A × S) → P o.1 → Outcome (λ _. P) P o
Outcome-of P (ok a, s) p = p
Outcome-of P (err e, s) p = p

after : {S A : Type 0} (P : S → Type 0) (o : Result A × S) → Outcome (λ _. P) P o → P o.1
after P (ok a, s) p = p
after P (err e, s) p = p

module _ (host : Host) {S : Type 0} (call : Client S) (P : S → Type 0)
    (k : (arguments : Value) → Keeps P (call (text "simmis_worker-input") arguments)) where
  picked : {A : Type 0} (b : Bool) (x y : Result A × S) → P x.1 → P y.1 → P (if b then x else y).1
  picked true x y p q = p
  picked false x y p q = q

  -- The end of a round.
  abbrev advance : ℕ → Text → List Bytes → Result Part → S → Result (Identity × List Bytes) × S
  advance fuel run chunks r s = elim r [
    | err e ↦ (err e, s)
    | ok part ↦
        let read = chunks ++ part.contents ∷ [] in
        let rest = fetch_loop host call fuel run (some part.identity) read part.end s in
        if part.end == part.identity.bytes then (ok (part.identity, read), s) else rest
  ]

  round-Keeps :
      (fuel : ℕ) (run : Text) (chunks : List Bytes) (r : Result Part) (s : S)
      → P s
      → ((part : Part)
          → P
              (fetch_loop host call fuel run
                (some part.identity)
                (chunks ++ part.contents ∷ [])
                part.end
                s).1)
      → P (advance fuel run chunks r s).1
  round-Keeps fuel run chunks (err e) s p t = p
  round-Keeps fuel run chunks (ok part) s p t =
      picked (part.end == part.identity.bytes) (ok (part.identity, chunks ++ part.contents ∷ []), s)
        (fetch_loop host call fuel run (some part.identity) (chunks ++ part.contents ∷ []) part.end
          s)
        p (t part)

  loop-Keeps :
      (fuel : ℕ) (run : Text) (descriptor : Option Identity) (chunks : List Bytes) (offset : ℕ)
      (s : S)
      → P s
      → P (fetch_loop host call fuel run descriptor chunks offset s).1
  unfolding fetch_loop
  loop-Keeps zero run descriptor chunks offset s p = p
  loop-Keeps (suc fuel) run descriptor chunks offset s p =
      let reply = call (text "simmis_worker-input") (chunk_arguments run offset) s in
      let p' = after P reply ((k (chunk_arguments run offset)).runs s p) in
      round-Keeps fuel run chunks (reply.0 >>= read_part host descriptor offset) reply.1 p' (λ part.
        loop-Keeps fuel run (some part.identity) (chunks ++ part.contents ∷ []) part.end reply.1 p')

  pub fetch-Keeps : (run config : Value) → Keeps P (fetch host call run config)
  unfolding fetch read_bundle
  fetch-Keeps run config = record {
    runs = λ s p. Outcome-of P (fetch host call run config s) (bundle (canonical_uuid run) s p);
  }
    where
      bundle : (r : Result Text) (s : S) → P s → P (read_bundle host call r config s).1
      bundle (err e) s p = p
      bundle (ok name) s p = loop-Keeps max_input_json_bytes name none [] 0 s p
