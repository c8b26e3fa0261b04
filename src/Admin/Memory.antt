-- ===== src/Admin/Memory.antt =====
-- internal/adminauth/store.go: `MemStore`, the session store in memory. A map is an association list;
-- a counter is the decimal text of its number.
pub mod Items
pub mod Counters
pub mod Values
pub mod Sets
use proofgate.Base.{
  ℕ, suc, ◌+◌, ◌-◌, ◌≡◌, Bool, true, false, not, ◌&&◌, ◌||◌, Option, none, some, List, [], ◌∷◌, ltb,
  leb, if◌then◌else◌,
}
use proofgate.Base.Bytes.{Bytes, str_eq}
use proofgate.Base.Maps.{Map, lookup, insert, erase, elem}
use proofgate.Guard.Redact.{decimal}
use proofgate.Guard.Redact.Decimal.{value_from}
use proofgate.RateLimit.Stage.{has_prefix}
use proofgate.Admin.Store.{Result, ok, err, session_not_found, SessionStore}

pub record MemItem : Type 0 where
  pub val : Bytes
  pub expires_at : ℕ

-- `data` and `sets`, with the clock that the calls read
pub record MemStore : Type 0 where
  pub clock : ℕ
  pub items : Map MemItem
  pub sets : Map (List Bytes)

abbrev pub Done : Type 0
Done = Result (Unit {0})

unfoldable pub is_number : Bytes → Bool
is_number [] = true
is_number (c ∷ s) = leb b'0' c && leb c b'9' && is_number s

-- `strconv.ParseInt` with its error left: 0 for a text that is no number
unfoldable pub parse_int : Bytes → ℕ
unfolding is_number
parse_int s = if is_number s then value_from 0 s else 0

unfoldable pub put : MemStore → Bytes → MemItem → MemStore
put m k item = record m { items = insert k item m.items }

unfoldable pub forget : MemStore → Bytes → MemStore
forget m k = record m { items = erase k m.items }

unfoldable pub mem_set : MemStore → Bytes → Bytes → ℕ → Done × MemStore
unfolding put
mem_set m k v ttl = (ok tt, put m k (record { val = v; expires_at = m.clock + ttl }))

-- The item of a key, when it is there and the clock is not after its expiry.
unfoldable pub live : MemStore → Bytes → Option MemItem
live m k = elim (lookup k m.items) [
  | none ↦ none
  | some item ↦ if ltb item.expires_at m.clock then none else some item
]

unfoldable pub mem_set_xx : MemStore → Bytes → Bytes → ℕ → Result Bool × MemStore
unfolding live put forget
mem_set_xx m k v ttl = elim (live m k) [
  | none ↦ (ok false, forget m k)
  | some item ↦ (ok true, put m k (record { val = v; expires_at = m.clock + ttl }))
]

unfoldable pub mem_get : MemStore → Bytes → Result Bytes × MemStore
unfolding live forget
mem_get m k = elim (live m k) [
  | none ↦ (err session_not_found, forget m k)
  | some item ↦ (ok item.val, m)
]

unfoldable pub mem_del : MemStore → List Bytes → Done × MemStore
mem_del m [] = (ok tt, m)
mem_del m (k ∷ ks) = mem_del (record m { items = erase k m.items; sets = erase k m.sets }) ks

-- The loop of `Scan` over the items, with the keys found and the items that are kept.
unfoldable pub scan_items : ℕ → Bytes → Map MemItem → List Bytes × Map MemItem
scan_items clock prefix [] = ([], [])
scan_items clock prefix ((k, item) ∷ m) =
    let (found, kept) = scan_items clock prefix m in
    if ltb item.expires_at clock
    then (found, kept)
    else (if has_prefix k prefix then k ∷ found else found, (k, item) ∷ kept)

-- `strings.TrimSuffix(match, "*")`
unfoldable pub trim_star : Bytes → Bytes
trim_star [] = []
trim_star (c ∷ []) = if str_eq (c ∷ []) (b'*' ∷ []) then [] else c ∷ []
trim_star (c ∷ d ∷ s) = c ∷ trim_star (d ∷ s)

unfoldable pub mem_scan : MemStore → Bytes → Result (List Bytes) × MemStore
unfolding scan_items trim_star
mem_scan m match =
    let (found, kept) = scan_items m.clock (trim_star match) m.items in
    (ok found, record m { items = kept })

-- The item that `IncrWithTTL` counts on: here the clock must be before the expiry.
unfoldable pub counting_item : MemStore → Bytes → Option MemItem
counting_item m k = elim (lookup k m.items) [
  | none ↦ none
  | some item ↦ if ltb m.clock item.expires_at then some item else none
]

unfoldable pub mem_incr : MemStore → Bytes → ℕ → Result ℕ × MemStore
unfolding counting_item put parse_int
mem_incr m k ttl = elim (counting_item m k) [
  | some item ↦
      let count = parse_int item.val + 1 in
      (ok count, put m k (record { val = decimal count; expires_at = item.expires_at }))
  | none ↦ (ok 1, put m k (record { val = b'1' ∷ []; expires_at = m.clock + ttl }))
]

unfoldable pub mem_get_with_ttl : MemStore → Bytes → Result (ℕ × ℕ) × MemStore
unfolding live forget parse_int
mem_get_with_ttl m k = elim (live m k) [
  | none ↦ (ok (0, 0), forget m k)
  | some item ↦ (ok (parse_int item.val, item.expires_at - m.clock), m)
]

abbrev pub set_of : MemStore → Bytes → List Bytes
set_of m k = elim (lookup k m.sets) [ none ↦ [] | some s ↦ s ]

unfoldable pub add_members : List Bytes → List Bytes → List Bytes
add_members [] s = s
add_members (x ∷ xs) s = add_members xs (if elem x s then s else x ∷ s)

unfoldable pub remove_member : Bytes → List Bytes → List Bytes
remove_member x [] = []
remove_member x (y ∷ s) = let rest = remove_member x s in if str_eq y x then rest else y ∷ rest

unfoldable pub remove_members : List Bytes → List Bytes → List Bytes
unfolding remove_member
remove_members [] s = s
remove_members (x ∷ xs) s = remove_members xs (remove_member x s)

unfoldable pub mem_sadd : MemStore → Bytes → List Bytes → Done × MemStore
mem_sadd m k members =
    (ok tt, record m { sets = insert k (add_members members (set_of m k)) m.sets })

unfoldable pub mem_srem : MemStore → Bytes → List Bytes → Done × MemStore
mem_srem m k members = elim (lookup k m.sets) [
  | none ↦ (ok tt, m)
  | some s ↦ (ok tt, record m { sets = insert k (remove_members members s) m.sets })
]

unfoldable pub mem_smembers : MemStore → Bytes → Result (List Bytes) × MemStore
mem_smembers m k = (ok (set_of m k), m)

-- What a look at the store shows.
unfoldable pub mem_count : MemStore → Bytes → ℕ
unfolding counting_item parse_int
mem_count m k = elim (counting_item m k) [ none ↦ 0 | some item ↦ parse_int item.val ]

unfoldable pub mem_value : MemStore → Bytes → Option Bytes
unfolding live
mem_value m k = elim (live m k) [ none ↦ none | some item ↦ some item.val ]

unfoldable pub mem_has : MemStore → Bytes → Bytes → Bool
mem_has m k x = elem x (set_of m k)

abbrev pub mem_store : SessionStore
mem_store = record {
  Store = MemStore;
  now = λ m. m.clock;
  count = mem_count;
  value = mem_value;
  has = mem_has;
  set = mem_set;
  set_xx = mem_set_xx;
  get = mem_get;
  del = mem_del;
  incr_with_ttl = mem_incr;
  get_with_ttl = mem_get_with_ttl;
  sadd = mem_sadd;
  srem = mem_srem;
  smembers = mem_smembers;
  scan = mem_scan;
}
