-- ===== src/Auth/Lru/Examples.antt =====
-- Runs of internal/auth/lru.go: a cache of two entries.
use proofgate.Base.{ℕ, ◌≤◌, ◌==◌, List, [], ◌∷◌, if◌then◌else◌}
use proofgate.Base.Bytes.{codes}
use proofgate.Auth.Lru.{new_lru, len}
use proofgate.Auth.Lru.Capacity.{Op, gets, sets, removes, apply_all, within_capacity}

abbrev ops : List (ℕ × Op ℕ)
ops =
    (1, sets (codes "a") 10)
    ∷ (2, sets (codes "b") 20)
    ∷ (3, gets (codes "a"))
    ∷ (4, sets (codes "c") 30)
    ∷ (5, removes (codes "b"))
    ∷ []

within_capacity_example : len (apply_all (new_lru 0 2 5) ops) ≤ (if 2 == 0 then 1000 else 2)
within_capacity_example = within_capacity 0 2 5 ops
