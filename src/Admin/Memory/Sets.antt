-- ===== src/Admin/Memory/Sets.antt =====
-- `MemStore` keeps the laws of sets.
use proofgate.Base.{ℕ, ◌≡◌, refl, false, not, ◌&&◌, ◌||◌, List, [], ◌∷◌, if◌then◌else◌, arith}
use proofgate.Base.Bytes.{Bytes, str_eq, str_eq_iff}
use proofgate.Base.Maps.{elem, lookup-insert, lookup-erase}
use proofgate.Admin.Store.{ok, is_ok, IndexLaws}
use proofgate.Admin.Memory.{
  MemStore, put, forget, mem_set, mem_set_xx, mem_get, mem_del, set_of, add_members, remove_member,
  remove_members, mem_sadd, mem_srem, mem_smembers, mem_has, mem_store,
}
use proofgate.Admin.Memory.Items.{erased}

has-erased :
    (m : MemStore) (k j x : Bytes) → mem_has (erased m k) j x ≡ not (str_eq k j) && mem_has m j x
unfolding mem_has erased elem
has-erased m k j x = ground (arith, lookup-erase j k m.sets)

has-del :
    (m : MemStore) (ks : List Bytes) (j x : Bytes)
    → elem j ks ≡ false
    → mem_has (mem_del m ks).1 j x ≡ mem_has m j x
unfolding mem_del elem erased
has-del m [] j x h = refl
has-del m (k ∷ ks) j x h = ground (arith, has-del (erased m k) ks j x, has-erased m k j x)

has-get : (m : MemStore) (k j x : Bytes) → mem_has (mem_get m k).1 j x ≡ mem_has m j x
unfolding mem_get forget mem_has
has-get m k j x = ground arith

has-set_xx :
    (m : MemStore) (k v : Bytes) (ttl : ℕ) (j x : Bytes)
    → mem_has (mem_set_xx m k v ttl).1 j x ≡ mem_has m j x
unfolding mem_set_xx put forget mem_has
has-set_xx m k v ttl j x = ground arith

elem-add_members :
    (x : Bytes) (l s : List Bytes) → elem x (add_members l s) ≡ (elem x l || elem x s)
unfolding elem add_members
elem-add_members x [] s = refl
elem-add_members x (y ∷ l) s =
    ground (arith, elem-add_members x l (if elem y s then s else y ∷ s), str_eq_iff y x)

elem-remove_member :
    (x y : Bytes) (s : List Bytes) → elem x (remove_member y s) ≡ not (str_eq y x) && elem x s
unfolding elem remove_member
elem-remove_member x y [] = ground arith
elem-remove_member x y (z ∷ s) =
    ground (arith, elem-remove_member x y s, str_eq_iff z x, str_eq_iff z y, str_eq_iff y x)

elem-remove_members :
    (x : Bytes) (l s : List Bytes) → elem x (remove_members l s) ≡ not (elem x l) && elem x s
unfolding elem remove_members
elem-remove_members x [] s = refl
elem-remove_members x (y ∷ l) s =
    ground (arith, elem-remove_members x l (remove_member y s), elem-remove_member x y s)

has-sadd :
    (m : MemStore) (k : Bytes) (l : List Bytes) (j x : Bytes)
    → mem_has (mem_sadd m k l).1 j x
      ≡ (is_ok (mem_sadd m k l).0 && str_eq k j && elem x l || mem_has m j x)
unfolding mem_sadd mem_has
has-sadd m k l j x = ground (
  arith,
  lookup-insert j k (add_members l (set_of m k)) m.sets,
  elem-add_members x l (set_of m k),
  str_eq_iff k j,
)

has-srem :
    (m : MemStore) (k : Bytes) (l : List Bytes) (j x : Bytes)
    → mem_has (mem_srem m k l).1 j x
      ≡ not (is_ok (mem_srem m k l).0 && str_eq k j && elem x l) && mem_has m j x
unfolding mem_srem mem_has elem
has-srem m k l j x = ground (
  arith,
  lookup-insert j k (remove_members l (set_of m k)) m.sets,
  elem-remove_members x l (set_of m k),
  str_eq_iff k j,
)

smembers-ok :
    (m : MemStore) (k : Bytes) (l : List Bytes) (x : Bytes)
    → (mem_smembers m k).0 ≡ ok l
    → elem x l ≡ mem_has m k x
unfolding mem_smembers mem_has
smembers-ok m k l x h = ground arith

pub mem_store-IndexLaws : IndexLaws mem_store
unfolding mem_has mem_set mem_smembers put
mem_store-IndexLaws = record {
  smembers-ok = smembers-ok;
  has-sadd = has-sadd;
  has-srem = has-srem;
  has-set = λ m k v ttl j x. refl;
  has-set_xx = has-set_xx;
  has-smembers = λ m k j x. refl;
  has-get = has-get;
  has-del = has-del;
}
