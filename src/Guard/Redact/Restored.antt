-- ===== src/Guard/Redact/Restored.antt =====
-- What internal/guard/redact.go hides, internal/guard/restore.go restores.
use mathlib.Core.List.{flatten}
use proofgate.Base.{
  ℕ, zero, suc, ◌-◌, ◌≤◌, ◌≡◌, refl, sym, ap, ◌∙◌, false, some, List, [], ◌∷◌, ◌++◌, take, drop,
  arith, append-nil, take-append-drop,
}
use proofgate.Base.Bytes.{Bytes}
use proofgate.Guard.Restorer.{Mapping, emit, scan, stream}
use proofgate.Guard.Restorer.Steps.{scan-nil, scan_skip}
use proofgate.Guard.Restorer.Stream.{Occurs, stream_restored, stream_unmapped}
use proofgate.Guard.Redact.{PiiMatch, Numberer, count_up, Redacted, redact}
use proofgate.Guard.Redact.Placeholders.{scan-placeholder}
use proofgate.Guard.Redact.Runs.{
  IsPlain, Matched, counted, new_key, assigned, shown, redact_loop-Matched,
}
use proofgate.Guard.Redact.Originals.{
  Known, assigned-Known, begun_some, Few, assigned-IsShort, assigned-IsClosed,
}

scan_plain : (m : Mapping) (s t : Bytes) → IsPlain s → scan m (s ++ t) ≡ emit s (scan m t)
scan_plain m [] t h = refl
scan_plain m (c ∷ s) t (h, k) = scan_skip m c (s ++ t) h ∙ ap (emit (c ∷ [])) (scan_plain m s t k)

drop_nil : (n : ℕ) → drop {A = ℕ} n [] ≡ []
drop_nil zero = refl
drop_nil (suc n) = refl

drop_between : (i j : ℕ) (s : Bytes) → i ≤ j → drop (j - i) (drop i s) ≡ drop j s
drop_between zero j s h = ap (λ n. drop n s) (omega arith)
drop_between (suc i) zero s h = absurd (omega arith)
drop_between (suc i) (suc j) [] h = drop_nil (suc j - suc i)
drop_between (suc i) (suc j) (c ∷ s) h =
    ap (λ n. drop n (drop i s)) (omega arith) ∙ drop_between i j s (omega arith)

split_between : (i j : ℕ) (s : Bytes) → i ≤ j → take (j - i) (drop i s) ++ drop j s ≡ drop i s
split_between i j s h =
    ap (λ t. take (j - i) (drop i s) ++ t) (sym (drop_between i j s h))
    ∙ take-append-drop (j - i) (drop i s)

scan-shown :
    (mapping : Mapping) (text : Bytes) (last : ℕ) (counts : Numberer) (ms : List PiiMatch)
    → Known mapping counts ms
    → Matched text last ms
    → scan mapping (shown text last counts ms) ≡ (drop last text, [])
unfolding Known shown
scan-shown mapping text last counts [] h k =
    ap (scan mapping) (sym (append-nil (drop last text)))
    ∙ (scan_plain mapping (drop last text) [] k
        ∙ (ap (emit (drop last text)) (scan-nil mapping) ∙ rw (append-nil (drop last text)) refl))
scan-shown mapping text last counts (m ∷ ms) (l, h) (a, b, c, v, p, q) =
    let counts' = count_up m.kind counts in
    let between = take (m.start - last) (drop last text) in
    let after = shown text m.stop counts' ms in
    let joined : between ++ (m.value ++ drop m.stop text) ≡ drop last text =
      ap (λ t. between ++ t)
        (ap (λ w. w ++ drop m.stop text) v ∙ split_between m.start m.stop text b)
      ∙ split_between last m.start text a in
    scan_plain mapping between (new_key counts m ++ after) p
    ∙ (ap (emit between) (
          scan-placeholder mapping m.kind (counts' m.kind) m.value after l
          ∙ ap (emit m.value) (scan-shown mapping text m.stop counts' ms h q))
        ∙ ap (λ t. (t, [])) joined)

-- What a text becomes when its matches are redacted, cut into chunks in any way, is restored by the
-- stream restorer to that text: for matches that stand in the text one behind the other and with
-- their values, no `<` outside them, and numbers below `10 ^ 26`. The redaction does not panic.
-- (`strings.ReplaceAll` leaves a text alone that does not hold what it replaces.)
pub redact_restored :
    (replace_all : Bytes → Bytes → Bytes → Bytes) (cuts : Bytes → List Bytes) (text : Bytes)
    (ms : List PiiMatch) (counts : Numberer)
    → ((s old new : Bytes) → ¬ Occurs old s → replace_all s old new ≡ s)
    → ((s : Bytes) → flatten (cuts s) ≡ s)
    → Matched text 0 ms
    → Few counts ms
    → (r : Redacted) × (redact false text ms counts ≡ some r)
      × (stream replace_all r.mapping [] (cuts r.text) ≡ text)
unfolding redact
redact_restored replace_all cuts text [] counts absent cut h few = (
  record { text = text; mapping = []; counts = counts },
  refl,
  stream_unmapped replace_all (cuts text) ∙ cut text,
)
redact_restored replace_all cuts text (m ∷ ms) counts absent cut h few =
    let known = assigned counts [] (m ∷ ms) in
    let out = shown text 0 counts (m ∷ ms) in
    let hidden = scan-shown known text 0 counts (m ∷ ms) (assigned-Known counts [] (m ∷ ms)) h in
    (
      record { text = out; mapping = known; counts = counted counts (m ∷ ms) },
      redact_loop-Matched text 0 counts [] (m ∷ ms) h,
      stream_restored replace_all known (cuts out) absent (begun_some counts [] m ms)
            (assigned-IsShort counts [] (m ∷ ms) few tt) (assigned-IsClosed counts [] (m ∷ ms) tt)
          ∙ (ap (λ x. (scan known x).0 ++ (scan known x).1) (cut out)
              ∙ (ap (λ r. r.0 ++ r.1) hidden ∙ append-nil text)),
    )
