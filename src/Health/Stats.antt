-- ===== src/Health/Stats.antt =====
-- The statistics of internal/health/tracker.go and how a sample and a peer's statistics change them, over
-- any floating-point numbers.
use proofgate.Base.{ℕ, ◌/◌, ◌%◌, Bool, false, not, ◌&&◌, ◌||◌, [], ltb, if◌then◌else◌}
use proofgate.Base.Int.{ℤ, pos, ◌+ℤ◌, leb_ℤ, ltb_ℤ}
use proofgate.Base.Bytes.{Bytes}
use proofgate.Base.Float.{Floats}
use proofgate.Router.Breaker.{Target}

pub data Outcome : Type 0 where
  unknown succeeded failed : Outcome

pub record Sample : Type 0 where
  pub target : Target
  pub ttft : ℕ
  pub tokens : ℕ
  pub gen : ℕ
  pub outcome : Outcome

abbrev pub is_zero_ℤ : ℤ → Bool
is_zero_ℤ n = leb_ℤ n (pos 0) && leb_ℤ (pos 0) n

module _ (fl : Floats) where
  open fl use {Float, of_ℕ, add, sub, mul, div, lt, trunc, abs, is_nan, is_inf}

  pub record Stats : Type 0 where
    pub ttft_ms : Float
    pub ttft_dev_ms : Float
    pub tps : Float
    pub err_rate : Float
    pub ttft_n : ℤ
    pub tps_n : ℤ
    pub err_n : ℤ
    pub degraded : Bool
    pub since : ℕ
    pub reason : Bytes

  abbrev pub zero_stats : Stats
  zero_stats = record {
    ttft_ms = of_ℕ 0;
    ttft_dev_ms = of_ℕ 0;
    tps = of_ℕ 0;
    err_rate = of_ℕ 0;
    ttft_n = pos 0;
    tps_n = pos 0;
    err_n = pos 0;
    degraded = false;
    since = 0;
    reason = [];
  }

  unfoldable pub ewma : Float → Float → Float → ℤ → Float
  ewma old x a n = if is_zero_ℤ n then x else add (mul (sub (of_ℕ 1) a) old) (mul a x)

  -- `Duration.Seconds`
  unfoldable pub seconds : ℕ → Float
  seconds d = add (of_ℕ (d / 1_000_000_000)) (div (of_ℕ (d % 1_000_000_000)) (of_ℕ 1_000_000_000))

  unfoldable pub observe_ttft : Float → Sample → Stats → Stats
  observe_ttft a s e =
      let x = div (of_ℕ (s.ttft / 1_000)) (of_ℕ 1_000) in
      if ltb 0 s.ttft
      then (let counted = record e { ttft_n = e.ttft_n +ℤ pos 1 } in
          if is_zero_ℤ e.ttft_n
          then record counted { ttft_ms = x; ttft_dev_ms = of_ℕ 0 }
          else record counted {
            ttft_dev_ms = add (mul (sub (of_ℕ 1) a) e.ttft_dev_ms) (mul a (abs (sub x e.ttft_ms)));
            ttft_ms = add (mul (sub (of_ℕ 1) a) e.ttft_ms) (mul a x);
          })
      else e

  unfoldable pub observe_tps : Float → Sample → Stats → Stats
  unfolding ewma seconds
  observe_tps a s e =
      if ltb 0 s.tokens && ltb 0 s.gen
      then record e {
        tps = ewma e.tps (div (of_ℕ s.tokens) (seconds s.gen)) a e.tps_n;
        tps_n = e.tps_n +ℤ pos 1;
      }
      else e

  unfoldable pub observe_outcome : Float → Sample → Stats → Stats
  unfolding ewma
  observe_outcome a s e = elim s.outcome [
    | unknown ↦ e
    | succeeded ↦ record e {
      err_rate = ewma e.err_rate (of_ℕ 0) a e.err_n;
      err_n = e.err_n +ℤ pos 1;
    }
    | failed ↦ record e { err_rate = ewma e.err_rate (of_ℕ 1) a e.err_n; err_n = e.err_n +ℤ pos 1 }
  ]

  unfoldable pub observed : Float → Sample → Stats → Stats
  observed a s e = observe_outcome a s (observe_tps a s (observe_ttft a s e))

  unfoldable pub is_bad : Float → Bool
  is_bad x = is_nan x || is_inf x

  -- The checks of a peer's numbers
  unfoldable pub is_acceptable : Stats → Bool
  unfolding is_bad
  is_acceptable p =
      not (is_bad p.ttft_ms || is_bad p.ttft_dev_ms || is_bad p.tps || is_bad p.err_rate)
      && not (
          lt p.ttft_ms (of_ℕ 0)
          || lt p.ttft_dev_ms (of_ℕ 0)
          || lt p.tps (of_ℕ 0)
          || lt p.err_rate (of_ℕ 0)
          || ltb_ℤ p.ttft_n (pos 0)
          || ltb_ℤ p.tps_n (pos 0)
          || ltb_ℤ p.err_n (pos 0)
          || ltb_ℤ (pos 1_000_000) p.ttft_n
          || ltb_ℤ (pos 1_000_000) p.tps_n
          || ltb_ℤ (pos 1_000_000) p.err_n)

  -- `(1-gossipAlpha)*old + gossipAlpha*x`, whose constants are exact
  unfoldable pub gossip_blend : Float → Float → Float
  gossip_blend old x = add (mul (div (of_ℕ 9) (of_ℕ 10)) old) (mul (div (of_ℕ 1) (of_ℕ 10)) x)

  unfoldable pub blended : Stats → Stats → Stats
  unfolding gossip_blend
  blended p e =
      let rate = if lt (of_ℕ 1) p.err_rate then of_ℕ 1 else p.err_rate in
      let e1 =
        if ltb_ℤ (pos 0) p.ttft_n
        then if is_zero_ℤ e.ttft_n
          then record e { ttft_ms = p.ttft_ms; ttft_dev_ms = p.ttft_dev_ms; ttft_n = p.ttft_n }
          else record e {
            ttft_ms = gossip_blend e.ttft_ms p.ttft_ms;
            ttft_dev_ms = gossip_blend e.ttft_dev_ms p.ttft_dev_ms;
            ttft_n = e.ttft_n +ℤ p.ttft_n;
          }
        else e in
      let e2 =
        if ltb_ℤ (pos 0) p.tps_n
        then if is_zero_ℤ e.tps_n
          then record e1 { tps = p.tps; tps_n = p.tps_n }
          else record e1 { tps = gossip_blend e.tps p.tps; tps_n = e.tps_n +ℤ p.tps_n }
        else e1 in
      if ltb_ℤ (pos 0) p.err_n
      then if is_zero_ℤ e.err_n
        then record e2 { err_rate = rate; err_n = p.err_n }
        else record e2 { err_rate = gossip_blend e.err_rate rate; err_n = e.err_n +ℤ p.err_n }
      else e2
