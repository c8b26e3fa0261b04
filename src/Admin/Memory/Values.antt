-- ===== src/Admin/Memory/Values.antt =====
-- `MemStore` keeps the laws of values.
use proofgate.Base.{
  ℕ, ◌+◌, ◌≡◌, refl, Bool, false, ◌&&◌, none, some, List, [], ◌∷◌, ltb, if◌then◌else◌, arith,
  Option-cases, inl, inr,
}
use proofgate.Base.Bytes.{Bytes, str_eq, str_eq_iff}
use proofgate.Base.Maps.{elem, lookup-erase}
use proofgate.Admin.Store.{ok, is_ok, is_some, ValueLaws}
use proofgate.Admin.Memory.{
  MemItem, MemStore, put, forget, mem_set, live, mem_set_xx, mem_get, mem_del, mem_sadd, mem_srem,
  mem_smembers, mem_value, mem_store,
}
use proofgate.Admin.Memory.Items.{live-put, live-forget, erased, del-ok}

value-put :
    (m : MemStore) (k j : Bytes) (item : MemItem)
    → mem_value (put m k item) j ≡ (
        if str_eq k j
        then if ltb item.expires_at m.clock then none else some item.val
        else mem_value m j)
unfolding mem_value
value-put m k j item = ground (arith, live-put m k j item)

value-forget :
    (m : MemStore) (k j : Bytes) → live m k ≡ none → mem_value (forget m k) j ≡ mem_value m j
unfolding mem_value
value-forget m k j h = ground (arith, live-forget m k j, str_eq_iff k j)

value-live :
    (m : MemStore) (k : Bytes) (item : MemItem)
    → live m k ≡ some item
    → mem_value m k ≡ some item.val
unfolding mem_value
value-live m k item h = rw (h, mem_value) refl

value-erased :
    (m : MemStore) (k j : Bytes)
    → mem_value (erased m k) j ≡ (if str_eq k j then none else mem_value m j)
unfolding mem_value live erased
value-erased m k j = ground (arith, lookup-erase j k m.items)

value-del :
    (m : MemStore) (ks : List Bytes) (j : Bytes)
    → mem_value (mem_del m ks).1 j
      ≡ (if is_ok (mem_del m ks).0 && elem j ks then none else mem_value m j)
unfolding mem_del elem erased
value-del m [] j = refl
value-del m (k ∷ ks) j =
    ground (
      arith,
      value-del (erased m k) ks j,
      value-erased m k j,
      del-ok (erased m k) ks,
      str_eq_iff k j,
    )

value-set :
    (m : MemStore) (k v : Bytes) (ttl : ℕ) (j : Bytes)
    → mem_value (mem_set m k v ttl).1 j
      ≡ (if is_ok (mem_set m k v ttl).0 && str_eq k j then some v else mem_value m j)
unfolding mem_set
value-set m k v ttl j =
    ground (arith, value-put m k j (record { val = v; expires_at = m.clock + ttl }))

get-ok : (m : MemStore) (k v : Bytes) → (mem_get m k).0 ≡ ok v → mem_value m k ≡ some v
unfolding mem_get mem_value
get-ok m k v h = ground arith

get-none : (m : MemStore) (k : Bytes) → mem_value m k ≡ none → is_ok (mem_get m k).0 ≡ false
unfolding mem_get mem_value
get-none m k h = ground arith

value-get : (m : MemStore) (k j : Bytes) → mem_value (mem_get m k).1 j ≡ mem_value m j
unfolding mem_get
value-get m k j = elim (Option-cases (live m k)) [
  | inl e ↦ rw (e, mem_get) (value-forget m k j e)
  | inr (item, e) ↦ rw (e, mem_get) refl
]

now-get : (m : MemStore) (k : Bytes) → (mem_get m k).1.clock ≡ m.clock
unfolding mem_get forget
now-get m k = ground arith

set_xx-ok :
    (m : MemStore) (k v : Bytes) (ttl : ℕ) (b : Bool)
    → (mem_set_xx m k v ttl).0 ≡ ok b
    → b ≡ is_some (mem_value m k)
unfolding mem_set_xx mem_value
set_xx-ok m k v ttl b h = ground arith

value-set_xx :
    (m : MemStore) (k v : Bytes) (ttl : ℕ) (j : Bytes)
    → mem_value (mem_set_xx m k v ttl).1 j ≡ (
        if is_ok (mem_set_xx m k v ttl).0 && is_some (mem_value m k) && str_eq k j
        then some v
        else mem_value m j)
unfolding mem_set_xx
value-set_xx m k v ttl j = elim (Option-cases (live m k)) [
  | inl e ↦ rw (e, mem_set_xx) (rw (value-forget m k j e) (unfold mem_value in ground arith))
  | inr (item, e) ↦
      rw (e, mem_set_xx)
        (ground (
          arith,
          value-put m k j (record { val = v; expires_at = m.clock + ttl }),
          value-live m k item e,
        ))
]

pub mem_store-ValueLaws : ValueLaws mem_store
unfolding mem_sadd mem_srem mem_smembers mem_value live
mem_store-ValueLaws = record {
  now-get = now-get;
  get-ok = get-ok;
  get-none = get-none;
  value-get = value-get;
  value-set = value-set;
  set_xx-ok = set_xx-ok;
  value-set_xx = value-set_xx;
  value-del = value-del;
  value-sadd = λ m k l j. refl;
  value-srem = λ m k l j. ground arith;
  value-smembers = λ m k j. refl;
}
