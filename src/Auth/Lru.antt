-- ===== src/Auth/Lru.antt =====
-- internal/auth/lru.go. An element of the linked list is a number that points into a heap of items;
-- what a number that was never allocated points to is arbitrary and read by no operation. The map is
-- a list of pairs, in the order in which a `range` happens to walk it; the clock is an argument, and
-- the zero time is 0.
mod Examples
pub mod Capacity
pub mod Contents
use proofgate.Base.{
  ℕ, zero, suc, ◌+◌, ◌==◌, Bool, true, false, ◌&&◌, ◌||◌, Option, none, some, List, [], ◌∷◌, length,
  ltb, leb, if◌then◌else◌,
}
use proofgate.Base.Bytes.{Bytes, str_eq}

pub record Item (V : Type 0) : Type 0 where
  pub key : Bytes
  pub val : V
  pub expires : ℕ

pub record LruCache (V : Type 0) : Type 0 where
  pub capacity : ℕ
  pub ttl : ℕ
  pub items : List (Bytes × ℕ)
  pub evict_list : List ℕ
  pub heap : ℕ → Item V
  pub next : ℕ

unfoldable pub find : Bytes → List (Bytes × ℕ) → Option ℕ
find k [] = none
find k ((j, el) ∷ items) = if str_eq j k then some el else find k items

-- `delete(c.items, k)`
unfoldable pub delete : Bytes → List (Bytes × ℕ) → List (Bytes × ℕ)
delete k [] = []
delete k ((j, el) ∷ items) =
    let rest = delete k items in if str_eq j k then rest else (j, el) ∷ rest

unfoldable pub is_element : ℕ → List ℕ → Bool
is_element el [] = false
is_element el (e ∷ es) = e == el || is_element el es

-- `evictList.Remove(el)`
unfoldable pub unlink : ℕ → List ℕ → List ℕ
unlink el [] = []
unlink el (e ∷ es) = let rest = unlink el es in if e == el then es else e ∷ rest

-- `evictList.MoveToFront(el)`, which leaves alone a list that does not hold the element
unfoldable pub move_to_front : ℕ → List ℕ → List ℕ
unfolding is_element unlink
move_to_front el es = if is_element el es then el ∷ unlink el es else es

-- `evictList.Back()`
unfoldable pub back : List ℕ → Option ℕ
back [] = none
back (e ∷ []) = some e
back (e ∷ d ∷ es) = back (d ∷ es)

module _ {V : Type 0} where
  -- a capacity that is not positive is 1000; here it is 0
  unfoldable pub new_lru : V → ℕ → ℕ → LruCache V
  new_lru v capacity ttl = record {
    capacity = if capacity == 0 then 1000 else capacity;
    ttl = ttl;
    items = [];
    evict_list = [];
    heap = λ el. record { key = []; val = v; expires = 0 };
    next = 0;
  }

  unfoldable pub evict_element : ℕ → LruCache V → LruCache V
  unfolding unlink delete
  evict_element el c = record c {
    evict_list = unlink el c.evict_list;
    items = delete (c.heap el).key c.items;
  }

  unfoldable pub evict_oldest : LruCache V → LruCache V
  unfolding back evict_element
  evict_oldest c = elim (back c.evict_list) [ none ↦ c | some el ↦ evict_element el c ]

  unfoldable pub get : ℕ → Bytes → LruCache V → Option V × LruCache V
  unfolding find evict_element move_to_front
  get now k c = elim (find k c.items) [
    | none ↦ (none, c)
    | some el ↦
        if ltb 0 c.ttl && ltb (c.heap el).expires now
        then (none, evict_element el c)
        else (some (c.heap el).val, record c { evict_list = move_to_front el c.evict_list })
  ]

  -- `for c.evictList.Len() >= c.capacity`; each round takes one element off the list
  unfoldable pub evict_down : ℕ → LruCache V → LruCache V
  unfolding evict_oldest
  evict_down zero c = c
  evict_down (suc rounds) c =
      let rest = evict_down rounds (evict_oldest c) in
      if leb c.capacity (length c.evict_list) then rest else c

  unfoldable pub write_item : ℕ → Item V → LruCache V → LruCache V
  write_item el item c = record c { heap = λ e. if e == el then item else c.heap e }

  -- the insertion path
  unfoldable pub insert : Item V → LruCache V → LruCache V
  unfolding write_item
  insert item c =
      let w = write_item c.next item c in
      record w {
        evict_list = c.next ∷ c.evict_list;
        items = (item.key, c.next) ∷ c.items;
        next = c.next + 1;
      }

  unfoldable pub set : ℕ → Bytes → V → LruCache V → LruCache V
  unfolding find move_to_front write_item evict_down insert
  set now k v c =
      let expires = if ltb 0 c.ttl then now + c.ttl else 0 in
      elim (find k c.items) [
        | some el ↦
            write_item el (record { key = (c.heap el).key; val = v; expires = expires })
              (record c { evict_list = move_to_front el c.evict_list })
        | none ↦
            insert (record { key = k; val = v; expires = expires })
              (evict_down (length c.evict_list) c)
      ]

  unfoldable pub len : LruCache V → ℕ
  len c = length c.evict_list

  unfoldable pub remove : Bytes → LruCache V → LruCache V
  unfolding find evict_element
  remove k c = elim (find k c.items) [ none ↦ c | some el ↦ evict_element el c ]

  -- the loop of `RemoveWhere` over the entries that the map had
  unfoldable pub remove_entries :
      (Bytes → V → Bool) → List (Bytes × ℕ) → LruCache V → ℕ × LruCache V
  unfolding evict_element
  remove_entries predicate [] c = (0, c)
  remove_entries predicate ((k, el) ∷ entries) c =
      let (n, gone) = remove_entries predicate entries (evict_element el c) in
      let kept = remove_entries predicate entries c in
      if predicate k (c.heap el).val then (n + 1, gone) else kept

  unfoldable pub remove_where : (Bytes → V → Bool) → LruCache V → ℕ × LruCache V
  unfolding remove_entries
  remove_where predicate c = remove_entries predicate c.items c

  unfoldable pub purge : LruCache V → LruCache V
  purge c = record c { items = []; evict_list = [] }
