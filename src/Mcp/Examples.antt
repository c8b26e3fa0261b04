-- ===== src/Mcp/Examples.antt =====
-- Runs of internal/mcpproxy/policy.go: one server, of which a tool may be used and another not.
use proofgate.Base.{◌≡◌, refl, Bool, true, Option, none, some, [], ◌∷◌, if◌then◌else◌}
use proofgate.Base.Bytes.{Bytes, codes, str_eq}
use proofgate.Mcp.{McpPolicy, McpServerPolicy, allowed, matches}
use proofgate.Mcp.Policy.{HasMatch, LacksMatch, allowed_sound}

-- Globs without wildcards.
abbrev exact_match : Bytes → Bytes → Option Bool
exact_match glob name = some (str_eq glob name)

abbrev policy : McpPolicy
policy = record {
  servers = λ s.
      if str_eq s (codes "files")
      then some
          (record { allow = codes "read" ∷ []; deny = codes "write" ∷ []; allow_methods = [] })
      else none;
  allow_methods = [];
}

reads : allowed exact_match (some policy) (codes "files") (codes "read") ≡ true
unfolding allowed matches str_eq
reads = refl

allowed_sound_example :
    (q : McpPolicy) × (sp : McpServerPolicy) × (some policy ≡ some q)
    × (q.servers (codes "files") ≡ some sp)
    × LacksMatch exact_match sp.deny (codes "read")
    × HasMatch exact_match sp.allow (codes "read")
allowed_sound_example = allowed_sound exact_match (some policy) (codes "files") (codes "read") reads
