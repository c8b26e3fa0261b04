-- ===== src/Router/Route/Parsing.antt =====
-- Target names (internal/router/route.go) and what `Resolve` accepts.
use proofgate.Base.{
  ℕ, ◌≡◌, ◌≢◌, refl, Bool, true, false, none, some, [], ◌∷◌, ◌++◌, arith, All, ◌⊎◌, inl, inr,
  Option-cases,
}
use proofgate.Base.Bytes.{Bytes}
use proofgate.Base.Float.{Floats}
use proofgate.Router.Breaker.{Target}
use proofgate.Router.Route.{
  Route, Router, to_string, cut, parse_target, resolve, resolved, is_empty,
}

abbrev pub Lacks : ℕ → Bytes → Type 0
Lacks b = All (λ c. c ≢ b)

cut-append : (sep : ℕ) (p m : Bytes) → Lacks sep p → cut sep (p ++ sep ∷ m) ≡ some (p, m)
unfolding cut
cut-append sep [] m h = ground arith
cut-append sep (c ∷ p) m h = ground (arith, cut-append sep p m)

cut_sound : (sep : ℕ) (s p m : Bytes) → cut sep s ≡ some (p, m) → (s ≡ p ++ sep ∷ m) × Lacks sep p
unfolding cut
cut_sound sep [] p m h = cc
cut_sound sep (c ∷ s) [] m h = ground arith
cut_sound sep (c ∷ s) (d ∷ p) m h = ground (arith, cut_sound sep s p m)

not_empty : (s : Bytes) → s ≢ [] → is_empty s ≡ false
not_empty [] h = absurd (h refl)
not_empty (c ∷ s) h = refl

-- A target is read back from its name, if its provider has no `/` and neither part is empty; the
-- model may hold slashes.
pub parse-to_string :
    (t : Target)
    → Lacks b'/' t.provider
    → t.provider ≢ []
    → t.model ≢ []
    → parse_target (to_string t) ≡ some t
unfolding parse_target to_string
parse-to_string t h p m =
    ground
      (arith, cut-append b'/' t.provider t.model h, not_empty t.provider p, not_empty t.model m)

-- An accepted name is that of its target, which has a provider without `/` and no empty part.
pub parse_target_sound :
    (s : Bytes) (t : Target)
    → parse_target s ≡ some t
    → (to_string t ≡ s) × Lacks b'/' t.provider × (t.provider ≢ []) × (t.model ≢ [])
unfolding parse_target to_string
parse_target_sound s t h = elim (Option-cases (cut b'/' s)) [
  | inl e ↦ absurd (ground arith)
  | inr ((p, m), e) ↦ ground (arith, cut_sound b'/' s p m e)
]

module _ (fl : Floats) (r : Router fl) (model : Bytes) (allow_direct : Bool) where
  -- `Resolve` answers with the route of that name, if there is one; or, only for a key that may name
  -- targets directly and only at a known provider, with a plan of the one target that the text
  -- names.
  pub resolve_sound :
      (rt : Route)
      → resolve fl r model allow_direct ≡ resolved rt
      → (r.routes model ≡ some rt)
        ⊎ ((r.routes model ≡ none)
            × (allow_direct ≡ true)
            × ((t : Target) × (rt.targets ≡ t ∷ [])
                × (rt.name ≡ model)
                × (to_string t ≡ model)
                × (r.providers t.provider ≡ true)))
  unfolding resolve
  resolve_sound rt h = elim (Option-cases (r.routes model)) [
    | inl e ↦ elim (Option-cases (parse_target model)) [
      | inl e' ↦ absurd (ground arith)
      | inr (t, e') ↦ inr (
        e,
        ground arith,
        (t, ground arith, ground arith, (parse_target_sound model t e').0, ground arith),
      )
    ]
    | inr (rt', e) ↦ inl (ground arith)
  ]
