-- ===== src/Mcp.antt =====
-- internal/mcpproxy/policy.go: which tools and methods of an MCP server a key may use. `path.Match`
-- is a parameter, with `none` where it returns an error. The map of servers is a function.
mod Examples
pub mod Policy
use proofgate.Base.{
  Bool, true, false, not, ◌&&◌, ◌||◌, Option, none, some, List, [], ◌∷◌, if◌then◌else◌,
}
use proofgate.Base.Bytes.{Bytes, codes}
use proofgate.Router.Route.{is_empty}

-- internal/store/policy.go
pub record McpServerPolicy : Type 0 where
  pub allow : List Bytes
  pub deny : List Bytes
  pub allow_methods : List Bytes

pub record McpPolicy : Type 0 where
  pub servers : Bytes → Option McpServerPolicy
  pub allow_methods : List Bytes

abbrev pub default_allowed_methods : List Bytes
default_allowed_methods =
    codes "initialize"
    ∷ codes "ping"
    ∷ codes "tools/list"
    ∷ codes "tools/call"
    ∷ codes "notifications/*"
    ∷ []

module _ (path_match : Bytes → Bytes → Option Bool) where
  abbrev pub is_match : Bytes → Bytes → Bool
  is_match glob name = elim (path_match glob name) [ none ↦ false | some ok ↦ ok ]

  unfoldable pub matches : List Bytes → Bytes → Bool
  matches [] name = false
  matches (g ∷ globs) name = is_match g name || matches globs name

  unfoldable pub allowed : Option McpPolicy → Bytes → Bytes → Bool
  unfolding matches
  allowed none server tool = false
  allowed (some p) server tool = elim (p.servers server) [
    | none ↦ false
    | some sp ↦ if matches sp.deny tool then false else matches sp.allow tool
  ]

  -- what is left where the server has no list of its own
  unfoldable pub policy_method_allowed : McpPolicy → Bytes → Bool
  unfolding matches
  policy_method_allowed p method =
      if is_empty p.allow_methods
      then matches default_allowed_methods method
      else matches p.allow_methods method

  unfoldable pub method_allowed : Option McpPolicy → Bytes → Bytes → Bool
  unfolding policy_method_allowed
  method_allowed none server method = matches default_allowed_methods method
  method_allowed (some p) server method = elim (p.servers server) [
    | none ↦ policy_method_allowed p method
    | some sp ↦
        if is_empty sp.allow_methods
        then policy_method_allowed p method
        else matches sp.allow_methods method
  ]
