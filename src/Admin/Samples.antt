-- ===== src/Admin/Samples.antt =====
-- A codec for the sessions of internal/adminauth, to run it with.
use proofgate.Base.{ℕ, ◌≡◌, refl, Option, none, some, [], ◌∷◌, ◌++◌, ap, arith, length, take, drop}
use proofgate.Base.Bytes.{Bytes}
use proofgate.Admin.Session.{AdminSession, Codec, CodecLaws}

take-field : (b r : Bytes) → take (length b) (b ++ r) ≡ b
take-field [] r = refl
take-field (c ∷ b) r = ap (◌∷◌ c) (take-field b r)

drop-field : (b r : Bytes) → drop (length b) (b ++ r) ≡ r
drop-field [] r = refl
drop-field (c ∷ b) r = drop-field b r

-- A codec of length-prefixed fields.
abbrev field : Bytes → Bytes → Bytes
field b rest = length b ∷ (b ++ rest)

abbrev with_field {ℓ} : {A : Type ℓ} → Bytes → (Bytes → Bytes → Option A) → Option A
with_field [] k = none
with_field (n ∷ s) k = k (take n s) (drop n s)

unfoldable pub written : AdminSession → Bytes
written x = field x.id (
    field x.user_id (
      field x.username
        (field x.role (field x.ip (field x.user_agent (x.created_at ∷ x.last_active_at ∷ []))))))

times : (Bytes → ℕ → ℕ → AdminSession) → Bytes → Bytes → Option AdminSession
times k ua (c ∷ l ∷ []) = some (k ua c l)
times k ua _ = none

unfoldable pub read_session : Bytes → Option AdminSession
unfolding times
read_session s = with_field s λ id s1. with_field s1 λ user_id s2. with_field s2 λ username s3.
    with_field s3 λ role s4. with_field s4 λ ip s5. with_field s5 λ user_agent s6.
      times
        (λ ua c l. record {
          id = id;
          user_id = user_id;
          username = username;
          role = role;
          created_at = c;
          last_active_at = l;
          ip = ip;
          user_agent = ua;
        })
        user_agent s6

abbrev pub codec : Codec
codec = record {
  marshal = λ x. some (written x);
  unmarshal = read_session;
  hash_hex = λ token. b'#' ∷ token;
}

read-written : (x : AdminSession) → read_session (written x) ≡ some x
unfolding written read_session times
read-written x = simp (take-field, drop-field) refl

pub codec-CodecLaws : CodecLaws codec
codec-CodecLaws = record { unmarshal-marshal = λ x v h. ground (arith, read-written x) }
