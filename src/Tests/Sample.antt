-- ===== src/Tests/Sample.antt =====
-- A concrete library, and one frozen input with two files.
use simmis.Prelude.{
  ℕ, String, false, List, [], ◌∷◌, none, some, length, pos, list_eq, nat_eq, ◌==◌, if◌then◌else◌,
}
use simmis.Host.{Url, Host}
use simmis.Inputs.{policy}
use simmis.Value.{Text, text, Value, Items, Fields, str, int, Dict, dict}
use simmis.Value.Decode.{Raw, RawItems, Pairs}

-- The tree that a parser would hand over for a value.
unfoldable mutual
  pub raw_of : Value → Raw
  raw_of Value.null = Raw.null
  raw_of (Value.bool b) = Raw.bool b
  raw_of (Value.int n) = Raw.int n
  raw_of (Value.float x) = Raw.float x
  raw_of (Value.str s) = Raw.str s
  raw_of (Value.arr xs) = Raw.arr (raw_items xs)
  raw_of (Value.obj fs) = Raw.obj (raw_pairs fs)

  pub raw_items : Items → RawItems
  raw_items Items.nil = RawItems.nil
  raw_items (Items.cons x xs) = RawItems.cons (raw_of x) (raw_items xs)

  pub raw_pairs : Fields → Pairs
  raw_pairs Fields.end = Pairs.end
  raw_pairs (Fields.field k v fs) = Pairs.pair k (raw_of v) (raw_pairs fs)

abbrev pub no_digest : Text
no_digest = text "0000000000000000000000000000000000000000000000000000000000000000"

abbrev pub string : String → Value
string s = str (text s)

abbrev pub number : ℕ → Value
number n = int (pos n)

abbrev pub file : String → Value
file contents = dict (
    (text "base64", string contents)
    ∷ (text "bytes", number (length (text contents)))
    ∷ (text "sha256", str no_digest)
    ∷ (text "mode", number 0o100644)
    ∷ [])

abbrev pub config : Value
config = dict (
    (text "adapter", string "codex")
    ∷ (text "version", string "1")
    ∷ (text "model", string "m")
    ∷ (text "policy", string "local-trusted-v1")
    ∷ [])

abbrev stated : List (Text × ℕ) → Dict
stated [] = []
stated ((k, n) ∷ rest) = (k, number n) ∷ stated rest

abbrev pub input_id : String
input_id = "00000000-0000-4000-8000-000000000001"

abbrev pub files : Dict
files = (text "src/a.txt", file "hello") ∷ (text "out/b", file "x") ∷ []

abbrev pub frozen : Value
frozen = dict (
    (text "input-id", string input_id)
    ∷ (text "task", string "t")
    ∷ (text "config", config)
    ∷ (text "files", dict files)
    ∷ (
      text "limits",
      dict ((text "timeout-ms", number 60000) ∷ (text "settlement", string "review") ∷ []),
    )
    ∷ (text "policy", dict (stated policy))
    ∷ [])

abbrev worker_url : Url
worker_url = record {
  scheme = text "https";
  netloc = text "h";
  path = text "/mcp";
  query = [];
  fragment = [];
  hostname = some (text "h");
  username = none;
  password = none;
}

-- Digests are constant, base64 is the identity, and "{}" stands for the encoding of `frozen`.
abbrev pub host : Host
host = record {
  sha256 = λ b. no_digest;
  b64decode = λ t. some t;
  b64encode = λ b. b;
  loads = λ b. if b == text "{}" then some (raw_of frozen) else none;
  loads_plain = λ b. if b == text "{}" then some frozen else none;
  dumps = λ v. some (text "{}");
  dumps_sorted = λ v. text "{}";
  urlsplit = λ t. some worker_url;
  urlunsplit = λ a b c d e. text "https://h/mcp";
  casefold = λ t. t;
  floats = record { same = λ a b. a == b; same_int = λ a n. false };
}
