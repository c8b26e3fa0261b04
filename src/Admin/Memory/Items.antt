-- ===== src/Admin/Memory/Items.antt =====
-- The items of `MemStore` after a write, and the texts of its counters.
use proofgate.Base.{ℕ, ◌≡◌, refl, true, none, some, List, [], ◌∷◌, ltb, if◌then◌else◌, arith, All}
use proofgate.Base.Bytes.{Bytes, str_eq}
use proofgate.Base.Maps.{erase, lookup-insert, lookup-erase}
use proofgate.Guard.Redact.{decimal}
use proofgate.Guard.Redact.Decimal.{IsDigit, value_from, value-decimal, decimal-IsDigit}
use proofgate.Admin.Store.{ok}
use proofgate.Admin.Memory.{
  MemItem, MemStore, is_number, parse_int, put, forget, live, mem_del, counting_item,
}

pub digits-is_number : (s : Bytes) → All IsDigit s → is_number s ≡ true
unfolding is_number
digits-is_number [] h = refl
digits-is_number (c ∷ s) h = ground (arith, digits-is_number s h.1)

pub parse_int-decimal : (n : ℕ) → parse_int (decimal n) ≡ n
unfolding parse_int
parse_int-decimal n =
    ground (arith, digits-is_number (decimal n) (decimal-IsDigit n), value-decimal n)

-- Lookups after the two writes.
pub counting_item-put :
    (m : MemStore) (k j : Bytes) (item : MemItem)
    → counting_item (put m k item) j ≡ (
        if str_eq k j
        then if ltb m.clock item.expires_at then some item else none
        else counting_item m j)
unfolding counting_item put
counting_item-put m k j item = ground (arith, lookup-insert j k item m.items)

pub live-put :
    (m : MemStore) (k j : Bytes) (item : MemItem)
    → live (put m k item) j
      ≡ (if str_eq k j then if ltb item.expires_at m.clock then none else some item else live m j)
unfolding live put
live-put m k j item = ground (arith, lookup-insert j k item m.items)

pub live-forget :
    (m : MemStore) (k j : Bytes) → live (forget m k) j ≡ (if str_eq k j then none else live m j)
unfolding live forget
live-forget m k j = ground (arith, lookup-erase j k m.items)

pub counting_item-forget :
    (m : MemStore) (k j : Bytes)
    → counting_item (forget m k) j ≡ (if str_eq k j then none else counting_item m j)
unfolding counting_item forget
counting_item-forget m k j = ground (arith, lookup-erase j k m.items)

-- What is not live is not counted on either.
pub counting_item-live : (m : MemStore) (k : Bytes) → live m k ≡ none → counting_item m k ≡ none
unfolding live counting_item
counting_item-live m k h = ground arith

pub parse_int-one : parse_int (b'1' ∷ []) ≡ 1
unfolding parse_int is_number value_from
parse_int-one = refl

unfoldable pub erased : MemStore → Bytes → MemStore
erased m k = record m { items = erase k m.items; sets = erase k m.sets }

pub del-ok : (m : MemStore) (ks : List Bytes) → (mem_del m ks).0 ≡ ok tt
unfolding mem_del
del-ok m [] = refl
del-ok m (k ∷ ks) = del-ok (record m { items = erase k m.items; sets = erase k m.sets }) ks
