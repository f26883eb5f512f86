-- ===== src/Files.antt =====
-- A private directory as the scripts use one: files by name, with what `_regular_info` of
-- scripts/worker_claim.py looks at, and the atomic calls that publish a record.
pub mod Laws
use simmis.Prelude.{
  ℕ, ◌≡◌, Bool, true, false, not, List, [], ◌∷◌, ◌++◌, Option, none, some, ◌==◌, list_eq, nat_eq,
  Result, ok, err, ◌>>=◌, ◌>>◌, require, if◌then◌else◌,
}
use simmis.Value.{Text, Bytes, lookup}

pub record File : Type 0 where
  -- a regular file of this user with mode 600
  pub private_regular : Bool
  pub contents : Bytes

abbrev pub Directory : Type 0
Directory = List (Text × File)

-- os.link or open(O_EXCL): the caller has found the name free.
unfoldable pub create : Text → File → Directory → Directory
create name file d = (name, file) ∷ d

-- os.unlink
unfoldable pub unlink : Text → Directory → Directory
unlink name [] = []
unlink name ((k, f) ∷ d) = let rest = unlink name d in if name == k then rest else (k, f) ∷ rest

-- `_regular_info`
unfoldable pub regular_info : File → Result (Unit {0})
regular_info f = require f.private_regular
