-- ===== src/Namespace/Request.antt =====
-- `read_request` of scripts/worker_namespace.py: the one line that the guard reads before GO.
use simmis.Prelude.{
  suc, refl, ap, ◌∙◌, nat_beq_iff, ℕ, ◌+◌, ◌≤◌, ◌≡◌, Bool, true, false, ◌&&◌, not, List, [], ◌∷◌,
  leb, contains, nat_eq, ◌==◌, length, All, Result, ok, err, ◌>>=◌, ◌>>◌, require, value_error,
  >>=-eq-ok, require-eq-ok, ok-injective, subst, arith,
}
use simmis.Host.{Host}
use simmis.Inputs.{max_input_json_bytes}
use simmis.Inputs.Validate.{IsFrozen, validate-IsFrozen}
use simmis.Json.{strict_json}
use simmis.Paths.{is_encodable}
use simmis.Value.{Text, text, Bytes, Value, Items, arr, str, nil, cons, index, closed}
use simmis.Inputs

-- MAX_REQUEST_BYTES
abbrev pub max_request_bytes : ℕ
max_request_bytes = max_input_json_bytes + 262144

-- encoded.endswith(b"\n")
unfoldable pub ends_line : Bytes → Bool
ends_line [] = false
ends_line (b ∷ []) = b == 10
ends_line (b ∷ bs) = ends_line bs

-- isinstance(arg, str) and 1 <= len(arg) <= 4096 and "\x00" not in arg
unfoldable pub is_argument : Value → Bool
unfolding contains
is_argument (str arg) = leb 1 (length arg) && leb (length arg) 4096 && not (contains arg 0)
is_argument _ = false

unfoldable pub are_arguments : Items → Bool
unfolding is_argument
are_arguments nil = true
are_arguments (cons arg xs) = is_argument arg && are_arguments xs

unfoldable pub count : Items → ℕ
count nil = 0
count (cons x xs) = suc (count xs)

-- command[0].startswith("/")
unfoldable pub is_absolute : Items → Bool
is_absolute (cons (str (c ∷ cs)) xs) = c == 47
is_absolute _ = false

-- `for arg in command: arg.encode("utf-8")`
unfoldable pub are_encodable : Items → Bool
unfolding is_encodable
are_encodable nil = true
are_encodable (cons (str arg) xs) = is_encodable arg && are_encodable xs
are_encodable (cons _ xs) = false

unfoldable pub check_argv : Value → Result (Unit {0})
unfolding are_arguments count is_absolute are_encodable
check_argv (arr xs) = do
  require (leb 1 (count xs) && leb (count xs) 64 && are_arguments xs && is_absolute xs)
  require (are_encodable xs)
check_argv _ = err value_error

module _ (host : Host) where
  -- `read_request`; `encoded` is the line that stream.readline(MAX_REQUEST_BYTES + 1) returns.
  unfoldable pub read_request : Bytes → Result Value
  unfolding ends_line strict_json closed index Inputs.validate check_argv
  read_request encoded = do
    require (leb (length encoded) max_request_bytes && ends_line encoded)
    request ← strict_json host encoded
    _ ← closed request (text "frozen" ∷ text "config" ∷ text "argv" ∷ [])
    frozen ← index request (text "frozen")
    config ← index request (text "config")
    _ ← Inputs.validate host frozen config
    argv ← index request (text "argv")
    _ ← check_argv argv
    ok request

  -- An argument that execve can take.
  pub record IsArgument (arg : Text) : Type 0 where
    pub nonempty : 1 ≤ length arg
    pub bounded : length arg ≤ 4096
    pub no_nul : contains arg 0 ≡ false

  -- A list of texts, as JSON has it.
  abbrev pub strings : List Text → Items
  strings [] = nil
  strings (arg ∷ args) = cons (str arg) (strings args)

  -- A value is a list of texts, each an argument, the first of which is an absolute path.
  pub record IsCommand (argv : Value) : Type 0 where
    pub program : Text
    pub others : List Text
    pub whole : argv ≡ arr (strings ((47 ∷ program) ∷ others))
    pub all : All IsArgument ((47 ∷ program) ∷ others)
    pub few : suc (length others) ≤ 64

  pub record IsRequest (encoded : Bytes) (request : Value) : Type 0 where
    pub small : length encoded ≤ max_request_bytes
    pub whole : ends_line encoded ≡ true
    pub parsed : strict_json host encoded ≡ ok request
    pub frozen : Value
    pub config : Value
    pub has_frozen : index request (text "frozen") ≡ ok frozen
    pub has_config : index request (text "config") ≡ ok config
    pub accepted : IsFrozen host frozen config
    pub argv : Value
    pub has_argv : index request (text "argv") ≡ ok argv
    pub command : IsCommand argv

  are_arguments-strings :
      (xs : Items)
      → are_arguments xs ≡ true
      → (args : List Text) × (xs ≡ strings args) × All IsArgument args × (count xs ≡ length args)
  unfolding are_arguments is_argument count
  are_arguments-strings nil h = ([], refl, tt, refl)
  are_arguments-strings (cons (str arg) xs) h =
      let (args, same, all, n) = are_arguments-strings xs (ground arith) in
      (
        arg ∷ args,
        ap (cons (str arg)) same,
        (
          record {
            nonempty = ground (arith, h);
            bounded = ground (arith, h);
            no_nul = ground (arith, h);
          },
          all,
        ),
        ap suc n,
      )
  are_arguments-strings (cons _ xs) h = cc

  named :
      (xs : Items) (args : List Text)
      → xs ≡ strings args
      → All IsArgument args
      → count xs ≡ length args
      → count xs ≤ 64
      → is_absolute xs ≡ true
      → IsCommand (arr xs)
  unfolding is_absolute
  named xs [] e all n few h = cc (rw (e, is_absolute) at h)
  named xs ([] ∷ args) e all n few h = cc (rw (e, is_absolute) at h)
  named xs ((c ∷ cs) ∷ args) e all n few h =
      let slash = (nat_beq_iff c 47).0 (rw (e, is_absolute) at h) in
      let here = ap (λ (x : ℕ). (x ∷ cs) ∷ args) slash in
      record {
        program = cs;
        others = args;
        whole = ap arr (e ∙ ap strings here);
        all = subst (All IsArgument) here all;
        few = omega arith;
      }

  check_argv-IsCommand : (v : Value) → check_argv v ≡ ok tt → IsCommand v
  unfolding check_argv
  check_argv-IsCommand (arr xs) h =
      let (t, _) =
        require-eq-ok (leb 1 (count xs) && leb (count xs) 64 && are_arguments xs && is_absolute xs)
          _ h in
      let (args, same, all, n) = are_arguments-strings xs (ground (arith, t)) in
      named xs args same all n (ground (arith, t)) (ground (arith, t))
  check_argv-IsCommand _ h = cc

  framed :
      (encoded : Bytes)
      → leb (length encoded) max_request_bytes && ends_line encoded ≡ true
      → (length encoded ≤ max_request_bytes) × (ends_line encoded ≡ true)
  framed encoded t = (ground (arith, t), ground (arith, t))

  -- A request that the guard accepts is one line within the bound, which decodes to it; it has an
  -- accepted frozen input for its configuration, and its `argv` is a list of 1 to 64 texts of 1 to
  -- 4096 characters without NUL, the first of which is an absolute path.
  pub read_request-IsRequest :
      (encoded : Bytes) {request : Value}
      → read_request encoded ≡ ok request
      → IsRequest encoded request
  unfolding read_request
  read_request-IsRequest encoded h =
      let (t, h) =
        require-eq-ok (leb (length encoded) max_request_bytes && ends_line encoded) _ h in
      let (request, parsed, h) = >>=-eq-ok (strict_json host encoded) _ h in
      let (_, _, h) =
        >>=-eq-ok (closed request (text "frozen" ∷ text "config" ∷ text "argv" ∷ [])) _ h in
      let (frozen, f, h) = >>=-eq-ok (index request (text "frozen")) _ h in
      let (config, c, h) = >>=-eq-ok (index request (text "config")) _ h in
      let (_, v, h) = >>=-eq-ok (Inputs.validate host frozen config) _ h in
      let (argv, a, h) = >>=-eq-ok (index request (text "argv")) _ h in
      let (_, k, h) = >>=-eq-ok (check_argv argv) (λ _. ok request) h in
      subst (IsRequest encoded) (ok-injective h) (record {
        small = (framed encoded t).0;
        whole = (framed encoded t).1;
        parsed = parsed;
        frozen = frozen;
        config = config;
        has_frozen = f;
        has_config = c;
        accepted = (validate-IsFrozen host frozen config v).1;
        argv = argv;
        has_argv = a;
        command = check_argv-IsCommand argv k;
      })
