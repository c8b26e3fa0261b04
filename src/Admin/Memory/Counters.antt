-- ===== src/Admin/Memory/Counters.antt =====
-- `MemStore` keeps the laws of counters.
use proofgate.Base.{
  ℕ, suc, ◌+◌, ◌<◌, ◌≡◌, refl, false, ◌&&◌, none, some, List, [], ◌∷◌, ltb, if◌then◌else◌, arith,
  Option-cases, inl, inr,
}
use proofgate.Base.Bytes.{Bytes, str_eq, str_eq_iff}
use proofgate.Base.Maps.{elem, lookup-erase}
use proofgate.Guard.Redact.{decimal}
use proofgate.Admin.Store.{ok, is_ok, CounterLaws}
use proofgate.Admin.Memory.{
  MemItem, MemStore, parse_int, put, forget, mem_set, live, mem_del, counting_item, mem_incr,
  mem_get_with_ttl, mem_sadd, mem_count, mem_store,
}
use proofgate.Admin.Memory.Items.{
  parse_int-decimal, counting_item-put, counting_item-forget, counting_item-live, erased,
  parse_int-one, del-ok,
}

count-put :
    (m : MemStore) (k j : Bytes) (item : MemItem)
    → mem_count (put m k item) j ≡ (
        if str_eq k j
        then if ltb m.clock item.expires_at then parse_int item.val else 0
        else mem_count m j)
unfolding mem_count
count-put m k j item = ground (arith, counting_item-put m k j item)

count-forget :
    (m : MemStore) (k j : Bytes) → live m k ≡ none → mem_count (forget m k) j ≡ mem_count m j
unfolding mem_count
count-forget m k j h =
    ground (arith, counting_item-forget m k j, counting_item-live m k h, str_eq_iff k j)

incr-ok :
    (m : MemStore) (k : Bytes) (ttl n : ℕ) → (mem_incr m k ttl).0 ≡ ok n → n ≡ suc (mem_count m k)
unfolding mem_incr mem_count
incr-ok m k ttl n h = ground arith

count-counting_item :
    (m : MemStore) (k : Bytes) (item : MemItem)
    → counting_item m k ≡ some item
    → (mem_count m k ≡ parse_int item.val) × (m.clock < item.expires_at)
unfolding mem_count counting_item
count-counting_item m k item h = ground arith

count-not_counting : (m : MemStore) (k : Bytes) → counting_item m k ≡ none → mem_count m k ≡ 0
unfolding mem_count
count-not_counting m k h = rw (h, mem_count) refl

count-incr :
    (m : MemStore) (k : Bytes) (ttl : ℕ) (j : Bytes)
    → 0 < ttl
    → mem_count (mem_incr m k ttl).1 j
      ≡ (if is_ok (mem_incr m k ttl).0 && str_eq k j then suc (mem_count m k) else mem_count m j)
unfolding mem_incr
count-incr m k ttl j h = elim (Option-cases (counting_item m k)) [
  | inl e ↦
      rw (e, mem_incr)
        (ground (
          arith,
          count-put m k j (record { val = b'1' ∷ []; expires_at = m.clock + ttl }),
          count-not_counting m k e,
          parse_int-one,
        ))
  | inr (item, e) ↦
      rw (e, mem_incr)
        (ground (
          arith,
          count-put m k j
              (record { val = decimal (parse_int item.val + 1); expires_at = item.expires_at }),
          count-counting_item m k item e,
          parse_int-decimal (parse_int item.val + 1),
        ))
]

count-get_with_ttl :
    (m : MemStore) (k j : Bytes) → mem_count (mem_get_with_ttl m k).1 j ≡ mem_count m j
unfolding mem_get_with_ttl
count-get_with_ttl m k j = elim (Option-cases (live m k)) [
  | inl e ↦ rw (e, mem_get_with_ttl) (count-forget m k j e)
  | inr (item, e) ↦ rw (e, mem_get_with_ttl) refl
]

count-erased :
    (m : MemStore) (k j : Bytes)
    → mem_count (erased m k) j ≡ (if str_eq k j then 0 else mem_count m j)
unfolding mem_count counting_item erased
count-erased m k j = ground (arith, lookup-erase j k m.items)

count-del :
    (m : MemStore) (ks : List Bytes) (j : Bytes)
    → mem_count (mem_del m ks).1 j
      ≡ (if is_ok (mem_del m ks).0 && elem j ks then 0 else mem_count m j)
unfolding mem_del elem erased
count-del m [] j = refl
count-del m (k ∷ ks) j =
    ground (
      arith,
      count-del (erased m k) ks j,
      count-erased m k j,
      del-ok (erased m k) ks,
      str_eq_iff k j,
    )

count-set :
    (m : MemStore) (k v : Bytes) (ttl : ℕ) (j : Bytes)
    → str_eq k j ≡ false
    → mem_count (mem_set m k v ttl).1 j ≡ mem_count m j
unfolding mem_set
count-set m k v ttl j h =
    ground (arith, count-put m k j (record { val = v; expires_at = m.clock + ttl }))

-- The store in memory keeps what the interface says of counters.
pub mem_store-CounterLaws : CounterLaws mem_store
unfolding mem_sadd mem_count counting_item
mem_store-CounterLaws = record {
  incr-ok = incr-ok;
  count-incr = count-incr;
  count-get_with_ttl = count-get_with_ttl;
  count-del = count-del;
  count-set = count-set;
  count-sadd = λ m k l j. refl;
}
