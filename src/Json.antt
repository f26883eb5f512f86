-- ===== src/Json.antt =====
-- json.loads with the hooks of scripts/worker_inputs.py, as every reader of a frame calls it.
use simmis.Prelude.{none, some, Result, ok, err, ◌>>=◌, value_error}
use simmis.Host.{Host}
use simmis.Value.{Bytes, Value, obj}
use simmis.Value.Decode.{Raw, decode}

-- The JSON text, before the hooks.
unfoldable pub raw_json : Host → Bytes → Result Raw
raw_json host encoded = elim (host.loads encoded) [ none ↦ err value_error | some raw ↦ ok raw ]

-- json.loads(encoded.decode("utf-8"), object_pairs_hook=..., parse_constant=...)
unfoldable pub strict_json : Host → Bytes → Result Value
unfolding raw_json decode
strict_json host encoded = do raw ← raw_json host encoded; decode raw

-- `if type(value) is not dict: raise ValueError`
unfoldable pub as_object : Value → Result Value
as_object (obj fs) = ok (obj fs)
as_object _ = err value_error

-- The object that a line holds.
unfoldable pub parse_frame : Host → Bytes → Result Value
unfolding strict_json as_object
parse_frame host encoded = do value ← strict_json host encoded; as_object value
