-- ===== src/Mcp/Policy.antt =====
-- The policy of internal/mcpproxy/policy.go denies by default, and a denied tool stays denied.
use proofgate.Base.{
  ◌≡◌, ◌≢◌, refl, Bool, true, false, Option, none, some, List, [], ◌∷◌, All, arith, Bool-cases,
  Option-cases, inl, inr,
}
use mathlib.Core.List.{Memᴰ}
use proofgate.Base.Bytes.{Bytes}
use proofgate.Mcp.{McpPolicy, McpServerPolicy, is_match, matches, allowed}

module _ (path_match : Bytes → Bytes → Option Bool) where
  -- Some glob of the list matches.
  abbrev pub HasMatch : List Bytes → Bytes → Type 0
  HasMatch globs name = (g : Bytes) × Memᴰ g globs × (path_match g name ≡ some true)

  matches_found :
      (globs : List Bytes) (name : Bytes)
      → matches path_match globs name ≡ true
      → HasMatch globs name
  unfolding matches
  matches_found [] name h = ground arith
  matches_found (g ∷ globs) name h = elim (Bool-cases (is_match path_match g name)) [
    | inl e ↦ (g, Memᴰ.head refl, ground (arith, e))
    | inr e ↦ let (f, m, k) = matches_found globs name (ground (arith, e, h)) in (f, Memᴰ.tail m, k)
  ]

  -- No glob of the list matches.
  abbrev pub LacksMatch : List Bytes → Bytes → Type 0
  LacksMatch globs name = All (λ g. path_match g name ≢ some true) globs

  matches_none :
      (globs : List Bytes) (name : Bytes)
      → matches path_match globs name ≡ false
      → LacksMatch globs name
  unfolding matches
  matches_none [] name h = tt
  matches_none (g ∷ globs) name h = (ground arith, matches_none globs name (ground arith))

  -- A tool is allowed only by a policy that names its server, that has a glob for it among those that
  -- allow, and none among those that deny.
  pub allowed_sound :
      (p : Option McpPolicy) (server tool : Bytes)
      → allowed path_match p server tool ≡ true
      → (q : McpPolicy) × (sp : McpServerPolicy) × (p ≡ some q)
        × (q.servers server ≡ some sp)
        × LacksMatch sp.deny tool
        × HasMatch sp.allow tool
  unfolding allowed
  allowed_sound none server tool h = ground arith
  allowed_sound (some q) server tool h = elim (Option-cases (q.servers server)) [
    | inl e ↦ ground (arith, e, h)
    | inr (sp, e) ↦
        let split : (matches path_match sp.deny tool ≡ false)
            × (matches path_match sp.allow tool ≡ true) =
          ground (arith, e, h) in
        (q, sp, refl, e, matches_none sp.deny tool split.0, matches_found sp.allow tool split.1)
  ]
