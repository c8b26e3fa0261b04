-- ===== src/Base/Float.antt =====
-- `float64`: the operations that the modelled code uses, over a type that stays abstract. What a
-- proof needs of them is a hypothesis where it is used.
use package.proofgate.Base.Tests.{ltb, leb}
use package.proofgate.Base.Int.{ℤ, pos, pos_part}
use Prim.Native.Nat.{ℕ, ◌+◌, ◌-◌, ◌*◌, ◌/◌}
use mathlib.Core.Bool.{Bool, false}

pub record Floats : Type 1 where
  pub Float : Type 0
  pub of_ℕ : ℕ → Float
  pub add : Float → Float → Float
  pub sub : Float → Float → Float
  pub mul : Float → Float → Float
  pub div : Float → Float → Float
  pub lt : Float → Float → Bool
  pub le : Float → Float → Bool
  pub is_zero : Float → Bool
  pub of_ℤ : ℤ → Float
  pub ceil : Float → ℤ
  pub round : Float → ℤ
  pub trunc : Float → ℤ
  pub abs : Float → Float
  pub is_nan : Float → Bool
  pub is_inf : Float → Bool

-- Natural numbers in their place, for runs at concrete inputs.
abbrev pub counting : Floats
counting = record {
  Float = ℕ;
  of_ℕ = λ n. n;
  add = λ a b. a + b;
  sub = λ a b. a - b;
  mul = λ a b. a * b;
  div = λ a b. a / b;
  lt = ltb;
  le = leb;
  is_zero = λ a. leb a 0;
  of_ℤ = pos_part;
  ceil = pos;
  round = pos;
  trunc = pos;
  abs = λ a. a;
  is_nan = λ a. false;
  is_inf = λ a. false;
}
