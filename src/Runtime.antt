-- ===== src/Runtime.antt =====
-- scripts/worker_runtime.py: the profile of a packaged runtime, validated without the artifact.
use simmis.Prelude.{
  ℕ, Bool, ◌&&◌, ◌||◌, not, [], ◌∷◌, ◌==◌, contains, list_eq, nat_eq, list_beq, drop, pos, Result,
  ok, ◌>>=◌, ◌>>◌, require,
}
use simmis.ExecutionUnit.{starts_with, is_pure_path}
use simmis.Host.{Host}
use simmis.Inputs.{is_sha256, is_uuid}
use simmis.Paths.{split, slash}
use simmis.Value.{Text, text, Value, str, int, dict, closed, item, is_int, is_str}

abbrev number : ℕ → Value
number n = int (pos n)

abbrev pub policy : Value
policy = dict (
    (text "version", number 1)
    ∷ (text "profile", str (text "dvergr-sci"))
    ∷ (text "max-jar-bytes", number 536870912)
    ∷ (text "heap-mib", number 512)
    ∷ (text "metaspace-mib", number 256)
    ∷ (text "direct-mib", number 64)
    ∷ [])

abbrev pub entrypoint : Text
entrypoint = text "is.simm.ops.worker-process"

-- Path(path).is_absolute() and str(Path(path)) == path; two leading slashes are a root of their own.
unfoldable pub is_canonical_path : Text → Bool
unfolding starts_with is_pure_path contains list_beq
is_canonical_path path =
    contains (text "/" ∷ text "//" ∷ []) path
    || starts_with (text "/") path && is_pure_path path
    || starts_with (text "//") path && is_pure_path (drop 1 path)

unfoldable pub check_descriptor : Value → Result (Unit {0})
unfolding closed item is_str is_canonical_path is_sha256 contains
check_descriptor descriptor = do
  d ← closed descriptor (text "jar" ∷ text "sha256" ∷ [])
  jar ← item (text "jar") d
  require (is_str (λ p. is_canonical_path p && not (contains (split slash p) (text ".."))) jar)
  sha256 ← item (text "sha256") d
  require (is_str is_sha256 sha256)

module _ (host : Host) where
  unfoldable pub validate_profile : Value → Result Value
  unfolding closed item is_int is_str check_descriptor is_uuid
  validate_profile value = do
    p ← closed value (
        text "version"
        ∷ text "kind"
        ∷ text "runtime"
        ∷ text "bootstrap"
        ∷ text "runtime-policy"
        ∷ text "executor-policy-id"
        ∷ text "inference-policy-id"
        ∷ [])
    version ← item (text "version") p
    require (is_int 1 version)
    kind ← item (text "kind") p
    require (is_str (λ s. s == text "dvergr-sci") kind)
    bootstrap ← item (text "bootstrap") p
    require (is_str (λ s. s == entrypoint) bootstrap)
    stated ← item (text "runtime-policy") p
    require (host.dumps_sorted stated == host.dumps_sorted policy)
    runtime ← item (text "runtime") p
    check_descriptor runtime
    executor ← item (text "executor-policy-id") p
    require (is_str is_uuid executor)
    inference ← item (text "inference-policy-id") p
    require (is_str is_uuid inference)
    ok value
