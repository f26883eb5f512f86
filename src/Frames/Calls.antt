-- ===== src/Frames/Calls.antt =====
-- The system calls of scripts/worker_io.py, and what they are documented to do.
use simmis.Prelude.{ℕ, ◌≤◌, ◌≡◌, ◌++◌, [], Bool, Option, none, some, length, take}
use simmis.Program.{M}
use simmis.Program.Triple.{Triple, Keeps}
use simmis.Value.{Bytes}

pub record Pipe (W : Type 0) : Type 0 where
  -- the callback of the owner
  pub tick : M W (Unit {0})
  -- time.monotonic(), in milliseconds
  pub monotonic : M W ℕ
  -- select on one descriptor, for so many milliseconds
  pub select_read : ℕ → M W Bool
  pub select_write : ℕ → M W Bool
  -- none is BlockingIOError
  pub os_read : ℕ → M W (Option Bytes)
  pub os_write : Bytes → M W (Option ℕ)
  pub os_close : ℕ → M W (Unit {0})

abbrev pub bytes_of : Option Bytes → Bytes
bytes_of none = []
bytes_of (some c) = c

abbrev pub count_of : Option ℕ → ℕ
count_of none = 0
count_of (some n) = n

-- `incoming` is what the peer will ever have written and has not been read: only os.read takes from it,
-- its first bytes, and at most as many as it was asked for.
pub record IsReader {W : Type 0} (pipe : Pipe W) (incoming : W → Bytes) : Type 0 where
  pub ticks : (all : Bytes) → Keeps (λ w. incoming w ≡ all) pipe.tick
  pub clocks : (all : Bytes) → Keeps (λ w. incoming w ≡ all) pipe.monotonic
  pub selects : (n : ℕ) (all : Bytes) → Keeps (λ w. incoming w ≡ all) (pipe.select_read n)
  pub reads :
      (n : ℕ) (all : Bytes)
      → Triple
          (λ w. incoming w ≡ all)
          (pipe.os_read n)
          (λ c w. (bytes_of c ++ incoming w ≡ all) × (length (bytes_of c) ≤ n))
          (λ w. incoming w ≡ all)

-- `sent` is what was written to the peer: only os.write adds to it, the first bytes that it was given.
pub record IsWriter {W : Type 0} (pipe : Pipe W) (sent : W → Bytes) : Type 0 where
  pub ticks : (out : Bytes) → Keeps (λ w. sent w ≡ out) pipe.tick
  pub clocks : (out : Bytes) → Keeps (λ w. sent w ≡ out) pipe.monotonic
  pub selects : (n : ℕ) (out : Bytes) → Keeps (λ w. sent w ≡ out) (pipe.select_write n)
  pub writes :
      (given out : Bytes)
      → Triple
          (λ w. sent w ≡ out)
          (pipe.os_write given)
          (λ n w. (sent w ≡ out ++ take (count_of n) given) × (count_of n ≤ length given))
          (λ w. sent w ≡ out)
