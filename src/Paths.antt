-- ===== src/Paths.antt =====
-- str.split and str.join at one separator, and the file names of scripts/worker_inputs.py:
-- `path_parts`, and the test for a file that stands where a directory of another should.
pub mod Split
pub mod Collision
pub mod Safety
use simmis.Prelude.{
  list_beq, ℕ, zero, suc, ◌+◌, ◌-◌, ◌≡◌, refl, Bool, true, false, ◌&&◌, ◌||◌, not, List, [], ◌∷◌,
  ◌++◌, leb, ltb, ◌==◌, contains, all, any, length, take, range, Result, ok, err, ◌>>=◌, ◌>>◌,
  require, value_error, list_eq, nat_eq, if◌then◌else◌,
}
use simmis.Value.{Text, text, Value, str}

unfoldable pub push_char : ℕ → List Text → List Text
push_char c [] = (c ∷ []) ∷ []
push_char c (p ∷ parts) = (c ∷ p) ∷ parts

-- path.split(sep)
unfoldable pub split : ℕ → Text → List Text
unfolding push_char
split sep [] = [] ∷ []
split sep (c ∷ cs) = let parts = split sep cs in if c == sep then [] ∷ parts else push_char c parts

-- sep.join(parts)
unfoldable pub join : ℕ → List Text → Text
join sep [] = []
join sep (p ∷ []) = p
join sep (p ∷ q ∷ parts) = p ++ sep ∷ join sep (q ∷ parts)

abbrev pub slash : ℕ
slash = b'/'

-- unicodedata.category(c) == "Cc"
unfoldable pub is_control : ℕ → Bool
is_control c = ltb c 32 || leb 127 c && leb c 159

-- path.encode("utf-8") fails at a surrogate
unfoldable pub is_encodable : Text → Bool
unfolding all
is_encodable = all (λ c. not (leb 0xd800 c && leb c 0xdfff))

-- str.isspace of one character
unfoldable pub is_space : ℕ → Bool
unfolding contains list_beq
is_space c =
    leb 9 c && leb c 13
    || leb 28 c && leb c 32
    || leb 0x2000 c && leb c 0x200a
    || contains (0x85 ∷ 0xa0 ∷ 0x1680 ∷ 0x2028 ∷ 0x2029 ∷ 0x202f ∷ 0x205f ∷ 0x3000 ∷ []) c

abbrev pub control_paths : List Text
control_paths =
    text ".git"
    ∷ text ".codex"
    ∷ text ".claude"
    ∷ text ".agents"
    ∷ text ".aws"
    ∷ text ".ssh"
    ∷ text ".mcp.json"
    ∷ text ".claude.json"
    ∷ []

-- `casefold` is Unicode's, from Python's library.
module _ (casefold : Text → Text) where
  -- not p.strip() or p in {".", ".."} or p.casefold() in CONTROL_PATHS
  unfoldable pub is_refused : Text → Bool
  unfolding all is_space contains list_beq
  is_refused p =
      all is_space p
      || contains (text "." ∷ text ".." ∷ []) p
      || contains control_paths (casefold p)

  unfoldable pub path_parts : Value → Result (List Text)
  unfolding any is_control is_encodable
  path_parts (str path) = do
    require (
        leb 1 (length path)
        && leb (length path) 512
        && not (contains path b'\\')
        && not (any is_control path))
    require (is_encodable path)
    require (not (any is_refused (split slash path)))
    ok (split slash path)
  path_parts _ = err value_error

-- any("/".join(parts[:n]) in names for n in range(1, len(parts)))
unfoldable pub collides : List Text → List Text → Bool
unfolding any range contains
collides names parts =
    any (λ n. contains names (join slash (take n parts))) (range 1 (length parts - 1))
