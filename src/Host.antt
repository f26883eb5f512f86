-- ===== src/Host.antt =====
-- What the scripts call of Python's library and the model does not compute: digests, base64, the
-- JSON codec, Unicode folding and float comparison. Every definition that uses them takes them as
-- this record, and the few facts that a theorem needs of them are its hypotheses.
use simmis.Prelude.{Option}
use simmis.Value.{Text, Bytes, Value}
use simmis.Value.Decode.{Raw}
use simmis.Value.Equality.{Floats}

-- The parts of a split URL that the scripts read.
pub record Url : Type 0 where
  pub scheme : Text
  pub netloc : Text
  pub path : Text
  pub query : Text
  pub fragment : Text
  pub hostname : Option Text
  pub username : Option Text
  pub password : Option Text

pub record Host : Type 0 where
  -- hashlib.sha256(bytes).hexdigest()
  pub sha256 : Bytes → Text
  -- base64.b64decode(text, validate=True), and its inverse
  pub b64decode : Text → Option Bytes
  pub b64encode : Bytes → Text
  -- json.loads(bytes.decode("utf-8")) before the hooks; none is a ValueError
  pub loads : Bytes → Option Raw
  -- json.loads(bytes) without hooks
  pub loads_plain : Bytes → Option Value
  -- json.dumps(value, sort_keys=True, separators=(",", ":"), ensure_ascii=False, allow_nan=False)
  -- .encode("utf-8"); none is a ValueError
  pub dumps : Value → Option Bytes
  -- json.dumps(value, sort_keys=True)
  pub dumps_sorted : Value → Text
  -- urllib.parse.urlsplit and urlunsplit; none is a ValueError
  pub urlsplit : Text → Option Url
  pub urlunsplit : Text → Text → Text → Text → Text → Text
  -- str.casefold
  pub casefold : Text → Text
  pub floats : Floats
