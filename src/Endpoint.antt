-- ===== src/Endpoint.antt =====
-- The destination checks of scripts/mcp_workspace.py (`MCP.__init__`) and scripts/mcp_client.py
-- (`origin`, `mcp_endpoint`): an MCP endpoint is canonical, and is HTTPS, or HTTP on loopback.
use simmis.Prelude.{
  Bool, true, false, ◌&&◌, ◌||◌, not, [], ◌∷◌, Option, none, some, leb, ltb, ◌==◌, any, contains,
  list_eq, nat_eq, list_beq, length, Result, ok, err, ◌>>=◌, ◌>>◌, require, value_error,
}
use simmis.Host.{Host, Url}
use simmis.Value.{Text, text, Value, str}

-- A hostname, user name or password that is there and not empty.
abbrev pub is_given : Option Text → Bool
is_given none = false
is_given (some []) = false
is_given (some (c ∷ s)) = true

abbrev pub is_loopback : Option Text → Bool
is_loopback none = false
is_loopback (some h) = contains (text "127.0.0.1" ∷ text "::1" ∷ text "localhost" ∷ []) h

unfoldable pub is_origin : Url → Bool
unfolding contains list_beq
is_origin u =
    is_given u.hostname
    && not (is_given u.username)
    && not (is_given u.password)
    && u.query == []
    && u.fragment == []
    && contains ([] ∷ text "/" ∷ []) u.path
    && (u.scheme == text "https" || (u.scheme == text "http" && is_loopback u.hostname))

-- any(ord(char) < 32 or ord(char) == 127 for char in url)
unfoldable pub is_printable : Text → Bool
unfolding any
is_printable url = not (any (λ c. ltb c 32 || c == 127) url)

module _ (host : Host) where
  unfoldable pub split_url : Text → Result Url
  split_url url = elim (host.urlsplit url) [ none ↦ err value_error | some u ↦ ok u ]

  unfoldable pub origin : Text → Result Text
  unfolding split_url is_origin
  origin value = do
    u ← split_url value
    require (is_origin u)
    ok (host.urlunsplit u.scheme u.netloc [] [] [])

  -- The checks of `mcp_endpoint`, which `MCP.__init__` makes of its url too.
  unfoldable pub mcp_endpoint : Value → Result Text
  unfolding is_printable split_url origin
  mcp_endpoint (str url) = do
    require (leb 1 (length url) && leb (length url) 2048 && is_printable url)
    u ← split_url url
    require (host.urlunsplit u.scheme u.netloc u.path u.query u.fragment == url)
    _ ← origin (host.urlunsplit u.scheme u.netloc [] [] [])
    require (u.path == text "/mcp" && u.query == [] && u.fragment == [])
    ok url
  mcp_endpoint _ = err value_error
