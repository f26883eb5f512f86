-- ===== src/Frames.antt =====
-- `Frames` of scripts/worker_io.py: lines of JSON over two nonblocking pipes, before a deadline.
pub mod Calls
pub mod Lines
pub mod Reads
pub mod Writes
pub mod Ends
use simmis.Prelude.{
  ℕ, zero, suc, ◌+◌, ◌-◌, min, Bool, true, false, List, [], ◌∷◌, ◌++◌, ◌==◌, nat_eq, Option, none,
  some, length, take, drop, ltb, leb, Result, ok, err, value_error, timeout_error, eof_error,
  out_of_fuel, if◌then◌else◌,
}
use simmis.Program.{M, ◌>>=◌, ◌>>◌, lift, done, raise, ensure, get, modify}
use simmis.Frames.Calls.{Pipe, count_of}
use simmis.Host.{Host}
use simmis.Inputs.{max_input_json_bytes}
use simmis.Json.{parse_frame}
use simmis.Value.{Bytes, Value}

abbrev pub max_frame_bytes : ℕ
max_frame_bytes = max_input_json_bytes + 262144

pub record Frames : Type 0 where
  pub writer : Option ℕ
  pub reader : Option ℕ
  pub pending : Bytes

pub record Channel (W : Type 0) : Type 0 where
  pub frames : Frames
  pub world : W

-- bytearray.find(b"\n"); none is -1
unfoldable pub find_newline : Bytes → Option ℕ
find_newline [] = none
find_newline (b ∷ bs) =
    let rest = find_newline bs in
    if b == 10 then some 0 else elim rest [ none ↦ none | some n ↦ some (suc n) ]

-- `if now >= deadline: raise TimeoutError`, in milliseconds
unfoldable pub in_time : ℕ → ℕ → Result (Unit {0})
in_time now deadline = if ltb now deadline then ok tt else err timeout_error

module _ {W : Type 0} where
  abbrev pub step : {A : Type 0} → Result A × W → Channel W → Result A × Channel W
  step (r, w) s = (r, record s { world = w })

  -- A call that does not touch the frames.
  abbrev pub ask : {A : Type 0} → M W A → M (Channel W) A
  ask m s = step (m s.world) s

  abbrev pub change : (Frames → Frames) → M (Channel W) (Unit {0})
  change f = modify (λ s. record s { frames = f s.frames })

module _ {W : Type 0} (pipe : Pipe W) where
  -- `_ready`, for the reader and for the writer
  unfoldable pub ready : (ℕ → M W Bool) → ℕ → M (Channel W) Bool
  unfolding in_time
  ready select deadline = do
    ask pipe.tick
    now ← ask pipe.monotonic
    lift (in_time now deadline)
    ask (select (min (deadline - now) 1000))

  -- What os.read gave: none is BlockingIOError, and nothing is the end of the pipe.
  unfoldable pub on_chunk : Option Bytes → M (Channel W) Value → M (Channel W) Value
  on_chunk none rest = rest
  on_chunk (some []) rest = raise eof_error
  on_chunk (some (b ∷ bs)) rest = do change (λ f. record f { pending = f.pending ++ b ∷ bs }); rest

  unfoldable pub on_ready : Bool → M (Channel W) Value → M (Channel W) Value
  unfolding on_chunk
  on_ready false rest = rest
  on_ready true rest = do
    pending ← get (λ s. s.frames.pending)
    chunk ← ask (pipe.os_read (min 16384 (max_frame_bytes - length pending)))
    on_chunk chunk rest

  unfoldable pub send_if : Bool → Bytes → M (Channel W) ℕ
  send_if false left = done 0
  send_if true left = do n ← ask (pipe.os_write (take 16384 left)); done (count_of n)

  -- The loop of `Frames.write`; `left` is encoded[offset:].
  unfoldable pub write_loop : ℕ → ℕ → Bytes → M (Channel W) (Unit {0})
  unfolding ready send_if
  write_loop fuel deadline [] = done tt
  write_loop zero deadline (b ∷ bs) = raise out_of_fuel
  write_loop (suc fuel) deadline (b ∷ bs) = do
    r ← ready pipe.select_write deadline
    n ← send_if r (b ∷ bs)
    write_loop fuel deadline (drop n (b ∷ bs))

  -- `Frames.write`
  unfoldable pub write : ℕ → Bytes → ℕ → M (Channel W) (Unit {0})
  unfolding write_loop
  write fuel encoded deadline = do
    ensure (leb (length encoded) max_frame_bytes)
    write_loop fuel deadline encoded

  unfoldable pub close_writer : Option ℕ → M (Channel W) (Unit {0})
  close_writer none = done tt
  close_writer (some fd) = do ask (pipe.os_close fd); change (λ f. record f { writer = none })

  unfoldable pub close_reader : Option ℕ → M (Channel W) (Unit {0})
  close_reader none = done tt
  close_reader (some fd) = do ask (pipe.os_close fd); change (λ f. record f { reader = none })

  -- `Frames.close`
  unfoldable pub close : M (Channel W) (Unit {0})
  unfolding close_writer close_reader
  close = do
    writer ← get (λ s. s.frames.writer)
    close_writer writer
    reader ← get (λ s. s.frames.reader)
    close_reader reader

module _ (host : Host) {W : Type 0} (pipe : Pipe W) where
  unfoldable pub on_newline : Option ℕ → ℕ → M (Channel W) Value → M (Channel W) Value
  unfolding parse_frame ready on_ready
  on_newline (some n) deadline rest = do
    pending ← get (λ s. s.frames.pending)
    change (λ f. record f { pending = drop (n + 1) pending })
    lift (parse_frame host (take (n + 1) pending))
  on_newline none deadline rest = do
    pending ← get (λ s. s.frames.pending)
    ensure (ltb (length pending) max_frame_bytes)
    r ← ready pipe pipe.select_read deadline
    on_ready pipe r rest

  -- `Frames.read`
  unfoldable pub read : ℕ → ℕ → M (Channel W) Value
  unfolding in_time find_newline on_newline
  read zero deadline = raise out_of_fuel
  read (suc fuel) deadline =
      let rest = read fuel deadline in
      do
        ask pipe.tick
        now ← ask pipe.monotonic
        lift (in_time now deadline)
        pending ← get (λ s. s.frames.pending)
        on_newline (find_newline pending) deadline rest
  -- `try: offset += os.write(...)`: none is BlockingIOError
