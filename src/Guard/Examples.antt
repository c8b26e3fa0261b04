-- ===== src/Guard/Examples.antt =====
-- Runs of internal/guard/detect.go and internal/guard/redact.go.
use mathlib.Core.List.{flatten}
use proofgate.Base.{ℕ, ◌≡◌, refl, true, false, some, List, [], ◌∷◌, append-nil, arith}
use proofgate.Base.Bytes.{Bytes, codes}
use proofgate.Guard.Restorer.{stream}
use proofgate.Guard.Redact.{PiiMatch, email, Redacted, redact}
use proofgate.Guard.Redact.Runs.{Matched, IsPlain}
use proofgate.Guard.Redact.Restored.{redact_restored}
use proofgate.Guard.Detect.{
  detect_pii, digits_of, verhoeff_valid, verhoeff_loop, verhoeff_step, entry,
}
use proofgate.Guard.Detect.Resolved.{detect_pii-Matched}
use proofgate.Guard.Detect.CheckDigits.{single_error_found}
use proofgate.Guard.Samples.{
  replace_whole, replace_whole_absent, patterns, patterns-PatternLaws, is_plain, is_plain-IsPlain,
}

abbrev text : Bytes
text = codes "to a@b.c!"

abbrev address : PiiMatch
address = record { kind = email; value = codes "a@b.c"; start = 3; stop = 8 }

-- one chunk
abbrev cuts : Bytes → List Bytes
cuts s = s ∷ []

text-IsPlain : IsPlain text
unfolding is_plain
text-IsPlain = is_plain-IsPlain text refl

address-Matched : Matched text 0 (address ∷ [])
unfolding is_plain
address-Matched = (
  omega arith,
  omega arith,
  omega arith,
  refl,
  is_plain-IsPlain (codes "to ") refl,
  is_plain-IsPlain (codes "!") refl,
)

redact_restored_example :
    (r : Redacted) × (redact false text (address ∷ []) (λ k. 0) ≡ some r)
    × (stream replace_whole r.mapping [] (cuts r.text) ≡ text)
unfolding flatten
redact_restored_example =
    redact_restored replace_whole cuts text (address ∷ []) (λ k. 0) replace_whole_absent append-nil
      address-Matched (λ k. omega arith)

detect_pii-Matched_example : Matched text 0 (detect_pii patterns text)
detect_pii-Matched_example = detect_pii-Matched patterns patterns-PatternLaws text text-IsPlain

abbrev eleven : List ℕ
eleven = 2 ∷ 3 ∷ 4 ∷ 1 ∷ 2 ∷ 3 ∷ 4 ∷ 1 ∷ 2 ∷ 3 ∷ 4 ∷ []

number_valid : verhoeff_valid (codes "2341 2341 2346") ≡ some true
unfolding verhoeff_valid digits_of verhoeff_loop verhoeff_step entry
number_valid = refl

single_error_found_example : verhoeff_valid (codes "2341 2341 2347") ≡ some false
unfolding digits_of
single_error_found_example =
    single_error_found (codes "2341 2341 2346") (codes "2341 2341 2347") eleven [] 6 7 refl refl
      refl (omega arith) number_valid
