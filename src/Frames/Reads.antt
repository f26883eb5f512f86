-- ===== src/Frames/Reads.antt =====
-- What `Frames.read` takes of the stream that the peer writes.
use simmis.Prelude.{
  ℕ, zero, suc, ◌+◌, ◌-◌, ◌≤◌, ◌≡◌, refl, sym, ap, subst, ◌∙◌, min, Bool, true, false, [], ◌∷◌,
  ◌++◌, nat_eq, Option, none, some, length, take, drop, ltb, contains, Result, ok, err, Error, ◌⊎◌,
  inl, inr, append_assoc, arith, length-append, out_of_fuel,
}
use simmis.Frames.{
  eof_error, Channel, max_frame_bytes, find_newline, in_time, step, ask, change, ready, on_chunk,
  on_ready, on_newline, read,
}
use simmis.Program.{M, get}
use simmis.Program.Triple.{
  Triple, Keeps, Outcome, Triple-lift, Triple-get, Triple-bind, Triple-modify, Triple-mono,
  Triple-lift_bind, Triple-ensure_bind,
}
use simmis.Frames.Calls.{Pipe, IsReader, bytes_of}
use simmis.Host.{Host}
use simmis.Json.{parse_frame}
use simmis.Value.{Bytes, Value}
use simmis.Frames.Lines.{IsCut, IsCut-at, taken, dropped, shorter}

-- What the peer will have written and no frame has given yet.
pub record IsStream {W : Type 0} (incoming : W → Bytes) (all : Bytes) (s : Channel W) : Type 0 where
  pub whole : s.frames.pending ++ incoming s.world ≡ all
  pub bounded : length s.frames.pending ≤ max_frame_bytes

-- The first line of `all` was taken.
pub record HasLine {W : Type 0} (incoming : W → Bytes) (all body : Bytes) (s : Channel W)
    : Type 0 where
  pub rest : Bytes
  pub split : all ≡ body ++ 10 ∷ rest
  pub only : contains body 10 ≡ false
  pub left : IsStream incoming rest s

-- The first line of `all` was taken and is the frame `value`,
abbrev pub Framed : {W : Type 0} → Host → (W → Bytes) → Bytes → Value → Channel W → Type 0
Framed host incoming all value s =
    (body : Bytes) × HasLine incoming all body s × (parse_frame host (body ++ 10 ∷ []) ≡ ok value)

-- or it was taken and is none.
abbrev pub Broken : {W : Type 0} → Host → (W → Bytes) → Bytes → Channel W → Type 0
Broken host incoming all s =
    (body : Bytes) × HasLine incoming all body s
    × ((e : Error) × (parse_frame host (body ++ 10 ∷ []) ≡ err e))

module _ {W : Type 0} {incoming : W → Bytes} where
  -- What leaves the stream alone.
  pub IsStream-ask :
      {A : Type 0} (m : M W A) (all : Bytes)
      → ((given : Bytes) → Keeps (λ w. incoming w ≡ given) m)
      → Keeps (IsStream incoming all) (ask m)
  IsStream-ask m all k = record {
    runs = λ s p. asked (m s.world) s p ((k (incoming s.world)).runs s.world refl);
  }
    where
      same :
          (s : Channel W) (w : W)
          → IsStream incoming all s
          → incoming w ≡ incoming s.world
          → IsStream incoming all (record s { world = w })
      same s w p e = record {
        whole = ap (λ (xs : Bytes). s.frames.pending ++ xs) e ∙ p.whole;
        bounded = p.bounded;
      }

      asked :
          {A : Type 0} (r : Result A × W) (s : Channel W)
          → IsStream incoming all s
          → Outcome (λ _ w. incoming w ≡ incoming s.world) (λ w. incoming w ≡ incoming s.world) r
          → Outcome (λ _. IsStream incoming all) (IsStream incoming all) (step r s)
      asked (ok a, w) s p e = same s w p e
      asked (err x, w) s p e = same s w p e

-- A chunk was read and is not pending yet.
record IsRead {W : Type 0} (incoming : W → Bytes) (all : Bytes) (chunk : Option Bytes)
    (s : Channel W) : Type 0 where
  whole : s.frames.pending ++ (bytes_of chunk ++ incoming s.world) ≡ all
  bounded : length s.frames.pending + length (bytes_of chunk) ≤ max_frame_bytes

module _ (host : Host) {W : Type 0} (pipe : Pipe W) (incoming : W → Bytes)
    (reader : IsReader pipe incoming) (all : Bytes) where
  ready-IsStream :
      (deadline : ℕ) → Keeps (IsStream incoming all) (ready pipe pipe.select_read deadline)
  unfolding ready
  ready-IsStream deadline =
      Triple-bind (ask pipe.tick) _ (IsStream-ask pipe.tick all reader.ticks) λ _.
        Triple-bind (ask pipe.monotonic) _ (IsStream-ask pipe.monotonic all reader.clocks) λ now.
          Triple-lift_bind (in_time now deadline) _
            (λ _ _. IsStream-ask (pipe.select_read _) all (reader.selects _)) (λ s p. p)

  asked :
      (n : ℕ) (r : Result (Option Bytes) × W) (s : Channel W)
      → IsStream incoming all s
      → n ≤ max_frame_bytes - length s.frames.pending
      → Outcome
          (λ c w. (bytes_of c ++ incoming w ≡ incoming s.world) × (length (bytes_of c) ≤ n))
          (λ w. incoming w ≡ incoming s.world)
          r
      → Outcome (IsRead incoming all) (IsStream incoming all) (step r s)
  asked n (ok c, w) s p h e = record {
    whole = ap (λ (xs : Bytes). s.frames.pending ++ xs) e.0 ∙ p.whole;
    bounded = omega (arith, p.bounded, h, e.1);
  }
  asked n (err x, w) s p h e = record {
    whole = ap (λ (xs : Bytes). s.frames.pending ++ xs) e ∙ p.whole;
    bounded = p.bounded;
  }

  os_read-IsRead :
      (pending : Bytes)
      → Triple
          (λ s. IsStream incoming all s × (pending ≡ s.frames.pending))
          (ask (pipe.os_read (min 16384 (max_frame_bytes - length pending))))
          (IsRead incoming all)
          (IsStream incoming all)
  os_read-IsRead pending = record {
    runs = λ s p.
        asked _ (pipe.os_read _ s.world) s p.0
          (subst
            (λ (xs : Bytes).
              min 16384 (max_frame_bytes - length pending) ≤ max_frame_bytes - length xs)
            p.1 (omega arith))
          ((reader.reads _ (incoming s.world)).runs s.world refl);
  }

  on_chunk-Triple :
      {R : Channel W → Type 0} {Q : Value → Channel W → Type 0} (chunk : Option Bytes)
      (rest : M (Channel W) Value)
      → Triple (IsStream incoming all) rest Q R
      → ((s : Channel W) → IsStream incoming all s → R s)
      → Triple (IsRead incoming all chunk) (on_chunk pipe chunk rest) Q R
  unfolding on_chunk
  on_chunk-Triple none rest t w =
      Triple-mono rest (λ s p. record { whole = p.whole; bounded = omega (arith, p.bounded) })
        (λ a s q. q) (λ s r. r) t
  on_chunk-Triple (some []) rest t w =
      Triple-lift (err eof_error) (λ a s e p. ground arith)
        (λ x s e p. w s (record { whole = p.whole; bounded = omega (arith, p.bounded) }))
  on_chunk-Triple (some (b ∷ bs)) rest t w =
      Triple-bind {Q = λ _. IsStream incoming all} (change _) (λ _. rest)
        (Triple-modify
          (λ s. record s { frames = record s.frames { pending = s.frames.pending ++ b ∷ bs } })
          (λ s p. record {
            whole = append_assoc s.frames.pending (b ∷ bs) (incoming s.world) ∙ p.whole;
            bounded = omega (arith, p.bounded, length-append s.frames.pending (b ∷ bs));
          }))
        (λ _. t)

  on_ready-Triple :
      {R : Channel W → Type 0} {Q : Value → Channel W → Type 0} (r : Bool)
      (rest : M (Channel W) Value)
      → Triple (IsStream incoming all) rest Q R
      → ((s : Channel W) → IsStream incoming all s → R s)
      → Triple (IsStream incoming all) (on_ready pipe r rest) Q R
  unfolding on_ready
  on_ready-Triple false rest t w = t
  on_ready-Triple true rest t w =
      Triple-bind
        {Q = λ (pending : Bytes) s. IsStream incoming all s × (pending ≡ s.frames.pending)} (get _)
        _ (Triple-get (λ s. s.frames.pending) (λ s p. (p, refl)))
        λ pending.
          Triple-bind (ask (pipe.os_read (min 16384 (max_frame_bytes - length pending)))) _
            (Triple-mono (ask (pipe.os_read (min 16384 (max_frame_bytes - length pending))))
              (λ s p. p) (λ a s p. p) w (os_read-IsRead pending))
            λ chunk. on_chunk-Triple chunk rest t w

  -- A line is there: it is taken off the stream, and it is a frame or not.
  line-Triple :
      (n : ℕ) (deadline : ℕ) (rest : M (Channel W) Value)
      → Triple
          (λ s. IsStream incoming all s × (find_newline s.frames.pending ≡ some n))
          (on_newline host pipe (some n) deadline rest)
          (Framed host incoming all)
          (Broken host incoming all)
  unfolding on_newline
  line-Triple n deadline rest = record {
    runs = λ s p.
        parsed s p.0 (IsCut-at s.frames.pending p.1)
          (parse_frame host (take (n + 1) s.frames.pending)) refl;
  }
    where
      line :
          (s : Channel W)
          → IsStream incoming all s
          → (c : IsCut s.frames.pending n)
          → HasLine incoming all c.body
              (record s { frames = record s.frames { pending = drop (n + 1) s.frames.pending } })
      line s p c = record {
        rest = c.after ++ incoming s.world;
        split =
            sym p.whole
            ∙ ap (λ (xs : Bytes). xs ++ incoming s.world) c.whole
            ∙ append_assoc c.body (10 ∷ c.after) (incoming s.world);
        only = c.only;
        left = record {
          whole = ap (λ (xs : Bytes). xs ++ incoming s.world) (dropped c);
          bounded =
              subst (λ (xs : Bytes). length xs ≤ max_frame_bytes) (sym (dropped c))
                (omega (arith, shorter c, p.bounded));
        };
      }

      parsed :
          (s : Channel W)
          → IsStream incoming all s
          → (c : IsCut s.frames.pending n) → (r : Result Value)
          → parse_frame host (take (n + 1) s.frames.pending) ≡ r
          → Outcome
              (Framed host incoming all)
              (Broken host incoming all)
              (r, record s { frames = record s.frames { pending = drop (n + 1) s.frames.pending } })
      parsed s p c (ok value) e = (c.body, line s p c, ap (parse_frame host) (sym (taken c)) ∙ e)
      parsed s p c (err x) e = (c.body, line s p c, (x, ap (parse_frame host) (sym (taken c)) ∙ e))

  abbrev pub Left : Channel W → Type 0
  Left s = IsStream incoming all s ⊎ Broken host incoming all s

  on_newline-Triple :
      (found : Option ℕ) (deadline : ℕ) (rest : M (Channel W) Value)
      → Triple (IsStream incoming all) rest (Framed host incoming all) Left
      → Triple
          (λ s. IsStream incoming all s × (find_newline s.frames.pending ≡ found))
          (on_newline host pipe found deadline rest)
          (Framed host incoming all)
          Left
  unfolding on_newline
  on_newline-Triple (some n) deadline rest t =
      Triple-mono (on_newline host pipe (some n) deadline rest) (λ s p. p) (λ a s q. q)
        (λ s r. inr r) (line-Triple n deadline rest)
  on_newline-Triple none deadline rest t =
      Triple-bind {Q = λ (pending : Bytes). IsStream incoming all} (get _) _
        (Triple-get (λ s. s.frames.pending) (λ s p. p.0))
        λ pending.
          Triple-ensure_bind (ltb (length pending) max_frame_bytes) _
            (λ _.
              Triple-bind {Q = λ _. IsStream incoming all} (ready pipe pipe.select_read deadline) _
                (Triple-mono (ready pipe pipe.select_read deadline) (λ s p. p) (λ a s p. p)
                  (λ s p. inl p) (ready-IsStream deadline))
                λ r. on_ready-Triple r rest t (λ s p. inl p))
            (λ s p. inl p)

  -- Over a pipe that os.read takes the first bytes of, `Frames.read` returns the frame of the first line of what the peer writes, and leaves the rest to
  -- later reads, however the bytes arrive. Where it raises, nothing of the stream is lost, or it has
  -- lost one line that is no frame.
  pub read-Framed :
      (fuel deadline : ℕ)
      → Triple
          (IsStream incoming all)
          (read host pipe fuel deadline)
          (Framed host incoming all)
          Left
  unfolding read
  read-Framed zero deadline =
      Triple-lift (err out_of_fuel) (λ a s e p. ground arith) (λ x s e p. inl p)
  read-Framed (suc fuel) deadline =
      Triple-bind {Q = λ _. IsStream incoming all} (ask pipe.tick) _
        (Triple-mono (ask pipe.tick) (λ s p. p) (λ a s p. p) (λ s p. inl p)
          (IsStream-ask pipe.tick all reader.ticks))
        λ _.
          Triple-bind {Q = λ _. IsStream incoming all} (ask pipe.monotonic) _
            (Triple-mono (ask pipe.monotonic) (λ s p. p) (λ a s p. p) (λ s p. inl p)
              (IsStream-ask pipe.monotonic all reader.clocks))
            λ now.
              Triple-lift_bind (in_time now deadline) _
                (λ _ _.
                  Triple-bind
                    {Q = λ (pending : Bytes) s.
                      IsStream incoming all s
                      × (find_newline s.frames.pending ≡ find_newline pending)}
                    (get _) _ (Triple-get (λ s. s.frames.pending) (λ s p. (p, refl)))
                    λ pending.
                      on_newline-Triple (find_newline pending) deadline
                        (read host pipe fuel deadline) (read-Framed fuel deadline))
                (λ s p. inl p)
