-- ===== src/Tests/Frames.antt =====
-- Runs and instances for worker_io.py: a pipe that gives its bytes two at a time and takes one.
use simmis.Prelude.{
  ℕ, suc, ◌-◌, ◌<◌, ◌≡◌, refl, ap, ◌∙◌, min, true, [], ◌∷◌, ◌++◌, some, length, take, drop, ok,
  nat_eq, take-append-drop, length-take, arith,
}
use simmis.Value.Decode.{Raw, Pairs}
use simmis.Value.{Bytes, Value, Fields}
use simmis.Json.{parse_frame}
use simmis.Host.{Host}
use simmis.Program.Triple.{Triple}
use simmis.Program.Ends.{Ends}
use simmis.Frames.Calls.{Pipe, IsReader, IsWriter}
use simmis.Frames.{Channel, read, write}
use simmis.Frames.Reads.{IsStream, Framed, Left, read-Framed}
use simmis.Frames.Writes.{IsPart, write-sent}
use simmis.Frames.Ends.{IsClocked, read-Ends, write-Ends}
use simmis.Tests.Sample.{host}

-- What is to be read, what was written, and the clock.
record Peer : Type 0 where
  to_read : Bytes
  written : Bytes
  clock : ℕ

abbrev narrow : Pipe Peer
narrow = record {
  tick = λ w. (ok tt, w);
  monotonic = λ w. (ok w.clock, record w { clock = suc w.clock });
  select_read = λ n w. (ok true, w);
  select_write = λ n w. (ok true, w);
  os_read = λ n w.
      (ok (some (take (min 2 n) w.to_read)), record w { to_read = drop (min 2 n) w.to_read });
  os_write = λ bytes w. (
    ok (some (min 1 (length bytes))),
    record w { written = w.written ++ take (min 1 (length bytes)) bytes },
  );
  os_close = λ fd w. (ok tt, w);
}

narrow-IsReader : IsReader narrow (λ w. w.to_read)
narrow-IsReader = record {
  ticks = λ all. record { runs = λ w p. p };
  clocks = λ all. record { runs = λ w p. p };
  selects = λ n all. record { runs = λ w p. p };
  reads = λ n all. record {
    runs = λ w p.
        (take-append-drop (min 2 n) w.to_read ∙ p, omega (arith, length-take (min 2 n) w.to_read));
  };
}

narrow-IsWriter : IsWriter narrow (λ w. w.written)
narrow-IsWriter = record {
  ticks = λ out. record { runs = λ w p. p };
  clocks = λ out. record { runs = λ w p. p };
  selects = λ n out. record { runs = λ w p. p };
  writes = λ given out. record {
    runs = λ w p. (ap (λ (xs : Bytes). xs ++ take (min 1 (length given)) given) p, omega arith);
  };
}

-- The clock ticks with each reading, and the deadline is 100.
narrow-IsClocked : IsClocked narrow 100 (λ w. 100 - w.clock)
narrow-IsClocked = record {
  ticks = λ n. record { runs = λ w p. p };
  clocks = λ n. record { runs = λ w p. (omega (arith, p), λ h. omega (arith, p, h)) };
  selects = λ k n. record { runs = λ w p. p };
  selects_out = λ k n. record { runs = λ w p. p };
  reads = λ k n. record { runs = λ w p. p };
  writes = λ given n. record { runs = λ w p. p };
}

-- {} and a newline, and the start of another line
abbrev bytes : Bytes
bytes = 123 ∷ 125 ∷ 10 ∷ 123 ∷ []

read-Framed_example :
    Triple
      (IsStream (λ w. w.to_read) bytes)
      (read host narrow 200 100)
      (Framed host (λ w. w.to_read) bytes)
      (Left host narrow (λ w. w.to_read) narrow-IsReader bytes)
read-Framed_example = read-Framed host narrow (λ w. w.to_read) narrow-IsReader bytes 200 100

write-sent_example :
    Triple
      (λ (s : Channel Peer). s.world.written ≡ 7 ∷ [])
      (write narrow 200 bytes 100)
      (λ _ s. s.world.written ≡ (7 ∷ []) ++ bytes)
      (IsPart (λ w. w.written) (7 ∷ []) bytes)
write-sent_example = write-sent narrow (λ w. w.written) narrow-IsWriter 200 100 bytes (7 ∷ [])

read-Ends_example :
    Ends
      (λ (s : Channel Peer). 100 - s.world.clock < 200)
      (read host narrow 200 100)
      (λ _ _. Unit {0})
read-Ends_example = read-Ends narrow 100 (λ w. 100 - w.clock) narrow-IsClocked host 200

write-Ends_example :
    Ends
      (λ (s : Channel Peer). 100 - s.world.clock < 200)
      (write narrow 200 bytes 100)
      (λ _ _. Unit {0})
write-Ends_example = write-Ends narrow 100 (λ w. 100 - w.clock) narrow-IsClocked 200 bytes

abbrev start : Channel Peer
start = record {
  frames = record { writer = some 3; reader = some 4; pending = [] };
  world = record { to_read = []; written = []; clock = 0 };
}

-- A frame goes out byte by byte.
written_bytes : (write narrow 200 bytes 100 start).1.world.written ≡ bytes
unfolding write
written_bytes = refl

-- A parser that reads every line as an empty object.
abbrev lenient : Host
lenient = record host { loads = λ b. some (Raw.obj Pairs.end) }

empty_frame : parse_frame lenient (123 ∷ 125 ∷ 10 ∷ []) ≡ ok (Value.obj Fields.end)
unfolding parse_frame
empty_frame = refl
