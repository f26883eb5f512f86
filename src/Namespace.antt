-- ===== src/Namespace.antt =====
-- scripts/worker_namespace.py: the policy of the task namespace.
pub mod Request
use simmis.Prelude.{ℕ, false, [], ◌∷◌, pos}
use simmis.Value.{text, Value, int, bool, dict}

abbrev number : ℕ → Value
number n = int (pos n)

-- POLICY
abbrev pub policy : Value
policy = dict (
    (text "version", number 1)
    ∷ (text "work-bytes", number 134217728)
    ∷ (text "runtime-bytes", number 16777216)
    ∷ (text "shm-bytes", number 8388608)
    ∷ (text "network", bool false)
    ∷ (text "host-writable-mounts", bool false)
    ∷ [])
