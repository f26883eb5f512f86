-- ===== src/Frames/Ends.antt =====
-- The loops of `Frames` and the clock.
use simmis.Prelude.{
  sym, ◌∙◌, Refuses, Refuses-ok, Refuses-raise, Refuses-bind, ℕ, zero, suc, ◌+◌, ◌-◌, ◌<◌, ◌≡◌, ◌≢◌,
  refl, min, Bool, true, false, [], ◌∷◌, ◌++◌, Option, none, some, length, take, drop, ltb, leb,
  Result, ok, err, Error, require, arith, out_of_fuel, timeout_error, value_error, eof_error,
}
use simmis.Value.DecodeLaws.{Refuses-decode_lem}
use simmis.Value.Decode.{Raw, decode}
use simmis.Json.{strict_json, raw_json, as_object, parse_frame}
use simmis.Program.{M, lift, get, ◌>>=◌}
use simmis.Program.Ends.{Ends, Ended, Ends-bind, Ends-lift, Ends-mono, Ends-get, Ends-modify}
use simmis.Frames.Calls.{Pipe, count_of}
use simmis.Frames.{
  Channel, max_frame_bytes, find_newline, in_time, step, ask, change, ready, on_chunk, on_ready,
  on_newline, read, send_if, write_loop, write,
}
use simmis.Host.{Host}
use simmis.Value.{Bytes, Value}

-- How often the clock can still be read before it has reached the deadline: a reading that is in time
-- uses one up, and no call adds one.
pub record IsClocked {W : Type 0} (pipe : Pipe W) (deadline : ℕ) (left : W → ℕ) : Type 0 where
  pub ticks : (n : ℕ) → Ends (λ w. left w < n) pipe.tick (λ _ w. left w < n)
  pub clocks :
      (n : ℕ)
      → Ends
          (λ w. left w < suc n)
          pipe.monotonic
          (λ now w. (left w < suc n) × (now < deadline → left w < n))
  pub selects : (k n : ℕ) → Ends (λ w. left w < n) (pipe.select_read k) (λ _ w. left w < n)
  pub selects_out : (k n : ℕ) → Ends (λ w. left w < n) (pipe.select_write k) (λ _ w. left w < n)
  pub reads : (k n : ℕ) → Ends (λ w. left w < n) (pipe.os_read k) (λ _ w. left w < n)
  pub writes :
      (given : Bytes) (n : ℕ) → Ends (λ w. left w < n) (pipe.os_write given) (λ _ w. left w < n)

pub Ends-ask :
    {W A : Type 0} (m : M W A) (P : W → Type 0) (Q : A → W → Type 0)
    → Ends P m Q
    → Ends (λ (s : Channel W). P s.world) (ask m) (λ a s. Q a s.world)
Ends-ask {W = W} {A = A} m P Q t = record { runs = λ s p. asked (m s.world) s (t.runs s.world p) }
  where
    asked :
        (r : Result A × W) (s : Channel W)
        → Ended Q r
        → Ended (λ a (x : Channel W). Q a x.world) (step r s)
    asked (ok a, w) s p = p
    asked (err e, w) s p = p

timely : (now deadline : ℕ) {u : Unit {0}} → in_time now deadline ≡ ok u → now < deadline
unfolding in_time
timely now deadline h = ground arith

late : (now deadline : ℕ) {e : Error} → in_time now deadline ≡ err e → e ≡ timeout_error
unfolding in_time
late now deadline h = ground arith

in_time-below :
    {W : Type 0} (now deadline : ℕ) (P Q : Channel W → Type 0)
    → ((s : Channel W) → now < deadline → P s → Q s)
    → Ends P (lift (in_time now deadline)) (λ _. Q)
in_time-below {W = W} now deadline P Q q = record {
  runs = λ s p. held s p (in_time now deadline) refl;
}
  where
    held :
        (s : Channel W)
        → P s
        → (r : Result (Unit {0})) → in_time now deadline ≡ r
        → Ended (λ _. Q) (r, s)
    held s p (ok u) h = q s (timely now deadline h) p
    held s p (err e) h = λ o. let e' = sym o ∙ late now deadline h in cc

require-Ends : (t : Bool) → require t ≢ err out_of_fuel
require-Ends true = λ e. cc
require-Ends false = λ e. cc

Refuses-raw_json : (host : Host) (line : Bytes) → Refuses (raw_json host line)
unfolding raw_json
Refuses-raw_json host line = loaded (host.loads line)
  where
    loaded : (r : Option Raw) → Refuses (elim r [ none ↦ err value_error | some raw ↦ ok raw ])
    loaded none = Refuses-raise
    loaded (some raw) = Refuses-ok raw

Refuses-as_object : (v : Value) → Refuses (as_object v)
unfolding as_object
Refuses-as_object Value.null = Refuses-raise
Refuses-as_object (Value.bool b) = Refuses-raise
Refuses-as_object (Value.int n) = Refuses-raise
Refuses-as_object (Value.float x) = Refuses-raise
Refuses-as_object (Value.str t) = Refuses-raise
Refuses-as_object (Value.arr vs) = Refuses-raise
Refuses-as_object (Value.obj fs) = Refuses-ok (Value.obj fs)

Refuses-parse_frame : (host : Host) (line : Bytes) → Refuses (parse_frame host line)
unfolding parse_frame strict_json
Refuses-parse_frame host line =
    Refuses-bind (strict_json host line) as_object
      (Refuses-bind (raw_json host line) decode (Refuses-raw_json host line)
        (λ raw _. Refuses-decode_lem raw))
      (λ v _. Refuses-as_object v)

parse_frame-Ends : (host : Host) (line : Bytes) → parse_frame host line ≢ err out_of_fuel
parse_frame-Ends host line h = let e = (Refuses-parse_frame host line).only out_of_fuel h in cc

module _ {W : Type 0} (pipe : Pipe W) (deadline : ℕ) (left : W → ℕ)
    (clocked : IsClocked pipe deadline left) where
  abbrev Within : ℕ → Channel W → Type 0
  Within n s = left s.world < n

  -- A turn of either loop that is in time uses up a reading of the clock.
  turn :
      {A : Type 0} (n : ℕ) (Q : A → Channel W → Type 0) (next : ℕ → M (Channel W) A)
      → ((now : ℕ) → Ends (Within n) (next now) Q)
      → Ends
          (Within (suc n))
          (ask pipe.tick >>= λ _.
            ask pipe.monotonic >>= λ now. lift (in_time now deadline) >>= λ _. next now)
          Q
  turn n Q next t =
      Ends-bind {Q = λ _. Within (suc n)} (ask pipe.tick) _
        (Ends-ask pipe.tick _ _ (clocked.ticks (suc n)))
        λ _.
          Ends-bind {Q = λ now s. Within (suc n) s × (now < deadline → Within n s)}
            (ask pipe.monotonic) _ (Ends-ask pipe.monotonic _ _ (clocked.clocks n))
            λ now.
              Ends-bind {Q = λ _. Within n} (lift (in_time now deadline)) (λ _. next now)
                (in_time-below now deadline _ _ (λ s h p. p.1 h)) λ _. t now

  ready-Ends :
      (n : ℕ) (select : ℕ → M W Bool)
      → ((k : ℕ) → Ends (λ w. left w < n) (select k) (λ _ w. left w < n))
      → Ends (Within (suc n)) (ready pipe select deadline) (λ _. Within n)
  unfolding ready
  ready-Ends n select t =
      turn n (λ _. Within n) (λ now. ask (select (min (deadline - now) 1000)))
        (λ now. Ends-ask (select (min (deadline - now) 1000)) _ _ (t (min (deadline - now) 1000)))

  ready_within : (n : ℕ) → Ends (Within n) (ready pipe pipe.select_read deadline) (λ _. Within n)
  ready_within n =
      Ends-mono (ready pipe pipe.select_read deadline) (λ s p. omega (arith, p)) (λ a s p. p)
        (ready-Ends n pipe.select_read (λ k. clocked.selects k n))

  on_chunk-Ends :
      (n : ℕ) (chunk : Option Bytes) (rest : M (Channel W) Value)
      → Ends (Within n) rest (λ _ _. Unit {0})
      → Ends (Within n) (on_chunk pipe chunk rest) (λ _ _. Unit {0})
  unfolding on_chunk
  on_chunk-Ends n none rest t = t
  on_chunk-Ends n (some []) rest t = Ends-lift (err eof_error) (λ e. cc) (λ a s p. tt)
  on_chunk-Ends n (some (b ∷ bs)) rest t =
      Ends-bind {Q = λ _. Within n} (change _) (λ _. rest)
        (Ends-modify
          (λ s. record s { frames = record s.frames { pending = s.frames.pending ++ b ∷ bs } })
          (λ s p. p))
        (λ _. t)

  on_ready-Ends :
      (n : ℕ) (r : Bool) (rest : M (Channel W) Value)
      → Ends (Within n) rest (λ _ _. Unit {0})
      → Ends (Within n) (on_ready pipe r rest) (λ _ _. Unit {0})
  unfolding on_ready
  on_ready-Ends n false rest t = t
  on_ready-Ends n true rest t =
      Ends-bind {Q = λ (pending : Bytes). Within n} (get _) _
        (Ends-mono (get (λ s. s.frames.pending)) (λ s p. p) (λ a s p. p.0)
          (Ends-get (λ s. s.frames.pending)))
        λ pending.
          Ends-bind {Q = λ _. Within n}
            (ask (pipe.os_read (min 16384 (max_frame_bytes - length pending)))) _
            (Ends-ask (pipe.os_read (min 16384 (max_frame_bytes - length pending))) _ _
              (clocked.reads _ n))
            λ chunk. on_chunk-Ends n chunk rest t

  on_newline-Ends :
      (host : Host) (n : ℕ) (found : Option ℕ) (rest : M (Channel W) Value)
      → Ends (Within n) rest (λ _ _. Unit {0})
      → Ends (Within n) (on_newline host pipe found deadline rest) (λ _ _. Unit {0})
  unfolding on_newline
  on_newline-Ends host n (some k) rest t =
      Ends-bind {Q = λ (pending : Bytes). Within n} (get _) _
        (Ends-mono (get (λ s. s.frames.pending)) (λ s p. p) (λ a s p. p.0)
          (Ends-get (λ s. s.frames.pending)))
        λ pending.
          Ends-bind {Q = λ _. Within n} (change _) _
            (Ends-modify
              (λ s. record s { frames = record s.frames { pending = drop (k + 1) pending } })
              (λ s p. p))
            λ _.
              Ends-lift (parse_frame host (take (k + 1) pending))
                (parse_frame-Ends host (take (k + 1) pending)) (λ a s p. tt)
  on_newline-Ends host n none rest t =
      Ends-bind {Q = λ (pending : Bytes). Within n} (get _) _
        (Ends-mono (get (λ s. s.frames.pending)) (λ s p. p) (λ a s p. p.0)
          (Ends-get (λ s. s.frames.pending)))
        λ pending.
          Ends-bind {Q = λ _. Within n} (lift (require (ltb (length pending) max_frame_bytes))) _
            (Ends-lift (require (ltb (length pending) max_frame_bytes))
              (require-Ends (ltb (length pending) max_frame_bytes)) (λ a s p. p))
            λ _.
              Ends-bind {Q = λ _. Within n} (ready pipe pipe.select_read deadline) _
                (ready_within n) λ r. on_ready-Ends n r rest t

  -- With more fuel than readings of the clock before the deadline, `Frames.read` does not run out of it,
  -- where no call of the system sets the clock back.
  pub read-Ends :
      (host : Host) (fuel : ℕ) → Ends (Within fuel) (read host pipe fuel deadline) (λ _ _. Unit {0})
  unfolding read
  read-Ends host zero = record { runs = λ s p. ground arith }
  read-Ends host (suc fuel) =
      turn fuel (λ _ _. Unit {0}) _
        λ now.
          Ends-bind {Q = λ (pending : Bytes). Within fuel} (get _) _
            (Ends-mono (get (λ s. s.frames.pending)) (λ s p. p) (λ a s p. p.0)
              (Ends-get (λ s. s.frames.pending)))
            λ pending.
              on_newline-Ends host fuel (find_newline pending) (read host pipe fuel deadline)
                (read-Ends host fuel)

  send_if-Ends :
      (n : ℕ) (r : Bool) (bytes : Bytes) → Ends (Within n) (send_if pipe r bytes) (λ _. Within n)
  unfolding send_if
  send_if-Ends n false bytes = Ends-lift (ok 0) (λ e. cc) (λ a s p. p)
  send_if-Ends n true bytes =
      Ends-bind {Q = λ _. Within n} (ask (pipe.os_write (take 16384 bytes))) _
        (Ends-ask (pipe.os_write (take 16384 bytes)) _ _ (clocked.writes (take 16384 bytes) n))
        λ k. Ends-lift (ok (count_of k)) (λ e. cc) (λ a s p. p)

  write_loop-Ends :
      (fuel : ℕ) (bytes : Bytes)
      → Ends (Within fuel) (write_loop pipe fuel deadline bytes) (λ _ _. Unit {0})
  unfolding write_loop
  write_loop-Ends fuel [] = Ends-lift (ok tt) (λ e. cc) (λ a s p. tt)
  write_loop-Ends zero (b ∷ bs) = record { runs = λ s p. ground arith }
  write_loop-Ends (suc fuel) (b ∷ bs) =
      Ends-bind {Q = λ _. Within fuel} (ready pipe pipe.select_write deadline) _
        (ready-Ends fuel pipe.select_write (λ k. clocked.selects_out k fuel))
        λ r.
          Ends-bind {Q = λ _. Within fuel} (send_if pipe r (b ∷ bs)) _
            (send_if-Ends fuel r (b ∷ bs)) λ n. write_loop-Ends fuel (drop n (b ∷ bs))

  -- With more fuel than readings of the clock before the deadline, `Frames.write` does not run out of it,
  -- where no call of the system sets the clock back.
  pub write-Ends :
      (fuel : ℕ) (bytes : Bytes)
      → Ends (Within fuel) (write pipe fuel bytes deadline) (λ _ _. Unit {0})
  unfolding write
  write-Ends fuel bytes =
      Ends-bind {Q = λ _. Within fuel} (lift (require (leb (length bytes) max_frame_bytes))) _
        (Ends-lift (require (leb (length bytes) max_frame_bytes))
          (require-Ends (leb (length bytes) max_frame_bytes)) (λ a s p. p))
        λ _. write_loop-Ends fuel bytes
