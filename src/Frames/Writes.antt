-- ===== src/Frames/Writes.antt =====
-- What `Frames.write` sends, where it returns and where it raises.
use simmis.Prelude.{
  ok-injective, length-take, List, ℕ, zero, suc, ◌≤◌, ◌≡◌, refl, sym, ap, ◌∙◌, Bool, true, false,
  [], ◌∷◌, ◌++◌, length, take, drop, leb, Result, ok, err, append_assoc, append-nil,
  take-append-drop, arith, out_of_fuel,
}
use simmis.Program.{M}
use simmis.Program.Triple.{
  Triple, Keeps, Outcome, Triple-lift, Triple-bind, Triple-mono, Triple-lift_bind,
  Triple-ensure_bind,
}
use simmis.Frames.Calls.{Pipe, IsWriter, count_of}
use simmis.Frames.{Channel, max_frame_bytes, in_time, step, ask, ready, send_if, write_loop, write}
use simmis.Value.{Bytes}

-- A call of the system is one of the channel.
pub Triple-ask :
    {W A : Type 0} (m : M W A) (P : W → Type 0) (Q : A → W → Type 0) (R : W → Type 0)
    → Triple P m Q R
    → Triple (λ (s : Channel W). P s.world) (ask m) (λ a s. Q a s.world) (λ s. R s.world)
Triple-ask {W = W} {A = A} m P Q R t = record {
  runs = λ s p. asked (m s.world) s (t.runs s.world p);
}
  where
    asked :
        (r : Result A × W) (s : Channel W)
        → Outcome Q R r
        → Outcome (λ a (x : Channel W). Q a x.world) (λ x. R x.world) (step r s)
    asked (ok a, w) s p = p
    asked (err e, w) s p = p

take-take : {A : Type 0} (n m : ℕ) (xs : List A) → n ≤ m → take n (take m xs) ≡ take n xs
take-take zero m xs h = refl
take-take (suc n) zero xs h = let h' = h in ground arith
take-take (suc n) (suc m) [] h = refl
take-take {A = A} (suc n) (suc m) (x ∷ xs) h =
    ap (λ (ys : List A). x ∷ ys) (take-take n m xs (omega (arith, h)))

-- The first bytes of `encoded` were sent after `out`, and not its last ones.
pub record IsPart {W : Type 0} (sent : W → Bytes) (out encoded : Bytes) (s : Channel W)
    : Type 0 where
  pub done : Bytes
  pub left : Bytes
  pub whole : done ++ left ≡ encoded
  pub told : sent s.world ≡ out ++ done

module _ {W : Type 0} (pipe : Pipe W) (sent : W → Bytes) (writer : IsWriter pipe sent) where
  none-IsPart :
      (out encoded : Bytes) (s : Channel W) → sent s.world ≡ out → IsPart sent out encoded s
  none-IsPart out encoded s p = record {
    done = [];
    left = encoded;
    whole = refl;
    told = p ∙ sym (append-nil out);
  }

  more-IsPart :
      (out encoded : Bytes) (n : ℕ) (s : Channel W)
      → IsPart sent (out ++ take n encoded) (drop n encoded) s
      → IsPart sent out encoded s
  more-IsPart out encoded n s p = record {
    done = take n encoded ++ p.done;
    left = p.left;
    whole =
        append_assoc (take n encoded) p.done p.left
        ∙ ap (λ (xs : Bytes). take n encoded ++ xs) p.whole
        ∙ take-append-drop n encoded;
    told = p.told ∙ append_assoc out (take n encoded) p.done;
  }

  ready-sent :
      (out : Bytes) (deadline : ℕ)
      → Keeps (λ (s : Channel W). sent s.world ≡ out) (ready pipe pipe.select_write deadline)
  unfolding ready
  ready-sent out deadline =
      let P : W → Type 0 = λ w. sent w ≡ out in
      Triple-bind (ask pipe.tick) _ (Triple-ask pipe.tick P (λ _. P) P (writer.ticks out)) λ _.
        Triple-bind (ask pipe.monotonic) _
          (Triple-ask pipe.monotonic P (λ _. P) P (writer.clocks out))
          λ now.
            Triple-lift_bind (in_time now deadline) _
              (λ _ _. Triple-ask (pipe.select_write _) P (λ _. P) P (writer.selects _ out))
              (λ s p. p)

  send_if-sent :
      (out : Bytes) (r : Bool) (left : Bytes)
      → Triple
          (λ (s : Channel W). sent s.world ≡ out)
          (send_if pipe r left)
          (λ n s. sent s.world ≡ out ++ take n left)
          (λ s. sent s.world ≡ out)
  unfolding send_if
  send_if-sent out false left =
      Triple-lift (ok 0)
        (λ a s e p. p ∙ sym (append-nil out) ∙ ap (λ (k : ℕ). out ++ take k left) (ok-injective e))
        (λ x s e p. p)
  send_if-sent out true left =
      Triple-bind (ask (pipe.os_write (take 16384 left))) _
        (Triple-ask (pipe.os_write (take 16384 left)) _ _ _ (writer.writes (take 16384 left) out))
        λ n.
          Triple-lift (ok (count_of n))
            (λ a s e p.
              p.0
              ∙ ap (λ (xs : Bytes). out ++ xs)
                  (take-take (count_of n) 16384 left (omega (arith, p.1, length-take 16384 left)))
              ∙ ap (λ (k : ℕ). out ++ take k left) (ok-injective e))
            (λ x s e p. ground arith)

  write_loop-sent :
      (fuel deadline : ℕ) (encoded out : Bytes)
      → Triple
          (λ (s : Channel W). sent s.world ≡ out)
          (write_loop pipe fuel deadline encoded)
          (λ _ s. sent s.world ≡ out ++ encoded)
          (IsPart sent out encoded)
  unfolding write_loop
  write_loop-sent fuel deadline [] out =
      Triple-lift (ok tt) (λ a s e p. p ∙ sym (append-nil out)) (λ x s e p. none-IsPart out [] s p)
  write_loop-sent zero deadline (b ∷ bs) out =
      Triple-lift (err out_of_fuel) (λ a s e p. ground arith)
        (λ x s e p. none-IsPart out (b ∷ bs) s p)
  write_loop-sent (suc fuel) deadline (b ∷ bs) out =
      Triple-bind {Q = λ _ s. sent s.world ≡ out} (ready pipe pipe.select_write deadline) _
        (Triple-mono (ready pipe pipe.select_write deadline) (λ s p. p) (λ a s p. p)
          (none-IsPart out (b ∷ bs)) (ready-sent out deadline))
        λ r.
          Triple-bind (send_if pipe r (b ∷ bs)) _
            (Triple-mono (send_if pipe r (b ∷ bs)) (λ s p. p) (λ a s p. p)
              (none-IsPart out (b ∷ bs)) (send_if-sent out r (b ∷ bs)))
            λ n.
              Triple-mono (write_loop pipe fuel deadline (drop n (b ∷ bs))) (λ s p. p)
                (λ a s p.
                  p
                  ∙ append_assoc out (take n (b ∷ bs)) (drop n (b ∷ bs))
                  ∙ ap (λ (xs : Bytes). out ++ xs) (take-append-drop n (b ∷ bs)))
                (more-IsPart out (b ∷ bs) n)
                (write_loop-sent fuel deadline (drop n (b ∷ bs)) (out ++ take n (b ∷ bs)))

  -- Over a pipe that os.write adds the first bytes to, `Frames.write` sends the whole frame where it returns, and its first bytes where it raises, whatever
  -- share of them each os.write takes.
  pub write-sent :
      (fuel deadline : ℕ) (encoded out : Bytes)
      → Triple
          (λ (s : Channel W). sent s.world ≡ out)
          (write pipe fuel encoded deadline)
          (λ _ s. sent s.world ≡ out ++ encoded)
          (IsPart sent out encoded)
  unfolding write
  write-sent fuel deadline encoded out =
      Triple-ensure_bind (leb (length encoded) max_frame_bytes) _
        (λ _. write_loop-sent fuel deadline encoded out) (none-IsPart out encoded)
