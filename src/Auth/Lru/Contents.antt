-- ===== src/Auth/Lru/Contents.antt =====
-- What the cache of internal/auth/lru.go holds: a property of the entries that were set is kept by
-- every operation, and what was removed is not there.
use proofgate.Base.{
  ℕ, zero, suc, ◌+◌, ◌<◌, ◌≡◌, refl, sym, subst, Bool, false, ◌&&◌, none, some, List, [], ◌∷◌,
  length, ltb, leb, ◌==◌, if◌then◌else◌, arith, Option-cases, Bool-cases, inl, inr,
}
use proofgate.Base.Bytes.{Bytes, str_eq, str_eq_refl, str_eq_iff}
use proofgate.Auth.Lru.{
  Item, LruCache, find, delete, back, new_lru, evict_element, evict_oldest, move_to_front, get,
  evict_down, write_item, insert, set, remove, remove_entries, remove_where, purge,
}

find-delete :
    (j k : Bytes) (items : List (Bytes × ℕ))
    → find j (delete k items) ≡ (if str_eq k j then none else find j items)
unfolding find delete
find-delete j k [] = ground arith
find-delete j k ((k', el) ∷ items) =
    ground (arith, find-delete j k items, str_eq_iff k' k, str_eq_iff k' j, str_eq_iff k j)

module _ {V : Type 0} (P : Bytes → V → Type 0) where
  -- Every entry is an allocated item under its own key, with the property.
  abbrev pub Holds : LruCache V → Type 0
  Holds c =
      (k : Bytes) (el : ℕ)
      → find k c.items ≡ some el
      → (el < c.next) × ((c.heap el).key ≡ k) × P k (c.heap el).val

  pub new_lru-Holds : (v : V) (capacity ttl : ℕ) → Holds (new_lru v capacity ttl)
  unfolding new_lru find
  new_lru-Holds v capacity ttl k el h = absurd (ground arith)

  evict_element-Holds : (el : ℕ) (c : LruCache V) → Holds c → Holds (evict_element el c)
  unfolding evict_element
  evict_element-Holds el c h k e f = h k e (ground (arith, find-delete k (c.heap el).key c.items))

  pub get-Holds : (now : ℕ) (k : Bytes) (c : LruCache V) → Holds c → Holds (get now k c).1
  unfolding get
  get-Holds now k c h = elim (Option-cases (find k c.items)) [
    | inl e ↦ rw (e, get) h
    | inr (el, e) ↦ elim (Bool-cases (ltb 0 c.ttl && ltb (c.heap el).expires now)) [
      | inl t ↦ rw (e, get) (rw t (evict_element-Holds el c h))
      | inr t ↦ rw (e, get) (rw t h)
    ]
  ]

  -- A hit has the property.
  pub get-hit :
      (now : ℕ) (k : Bytes) (v : V) (c : LruCache V) → Holds c → (get now k c).0 ≡ some v → P k v
  unfolding get
  get-hit now k v c h g = elim (Option-cases (find k c.items)) [
    | inl e ↦ absurd (ground arith)
    | inr (el, e) ↦
        let same : (c.heap el).val ≡ v = ground arith in subst (λ x. P k x) same (h k el e).2
  ]

  evict_oldest-Holds : (c : LruCache V) → Holds c → Holds (evict_oldest c)
  unfolding evict_oldest
  evict_oldest-Holds c h = elim (Option-cases (back c.evict_list)) [
    | inl e ↦ rw (e, evict_oldest) h
    | inr (el, e) ↦ rw (e, evict_oldest) (evict_element-Holds el c h)
  ]

  evict_down-Holds : (n : ℕ) (c : LruCache V) → Holds c → Holds (evict_down n c)
  unfolding evict_down
  evict_down-Holds zero c h = h
  evict_down-Holds (suc n) c h = elim (Bool-cases (leb c.capacity (length c.evict_list))) [
    | inl e ↦ rw e (evict_down-Holds n (evict_oldest c) (evict_oldest-Holds c h))
    | inr e ↦ rw e h
  ]

  -- The item under its key, with the property
  abbrev Fits : Bytes → Item V → Type 0
  Fits k item = (item.key ≡ k) × P k item.val

  insert-Holds :
      (item : Item V) (c : LruCache V) → P item.key item.val → Holds c → Holds (insert item c)
  unfolding insert write_item find
  insert-Holds item c p h k el f =
      let new : Item V = if el == c.next then item else c.heap el in
      elim (Bool-cases (str_eq item.key k)) [
        | inl e ↦
            let same : item ≡ new = ground arith in
            let own : item.key ≡ k = ground (arith, str_eq_iff item.key k) in
            let fits : Fits k new = subst (Fits k) same (own, subst (λ x. P x item.val) own p) in
            (ground arith, fits.0, fits.1)
        | inr e ↦
            let old : find k c.items ≡ some el = ground arith in
            let (below, own, q) = h k el old in
            let same : c.heap el ≡ new = ground arith in
            let fits : Fits k new = subst (Fits k) same (own, q) in (ground arith, fits.0, fits.1)
      ]

  write_item-Holds :
      (el : ℕ) (item : Item V) (c : LruCache V)
      → item.key ≡ (c.heap el).key
      → P item.key item.val
      → Holds c
      → Holds (write_item el item c)
  unfolding write_item
  write_item-Holds el item c own p h k e f =
      let new : Item V = if e == el then item else c.heap e in
      let (below, at, q) = h k e f in
      elim (Bool-cases (e == el)) [
        | inl t ↦
            let same : item ≡ new = ground arith in
            let mine : item.key ≡ k = ground arith in
            let fits : Fits k new = subst (Fits k) same (mine, subst (λ x. P x item.val) mine p) in
            (below, fits.0, fits.1)
        | inr t ↦
            let same : c.heap e ≡ new = ground arith in
            let fits : Fits k new = subst (Fits k) same (at, q) in (below, fits.0, fits.1)
      ]

  pub set-Holds :
      (now : ℕ) (k : Bytes) (v : V) (c : LruCache V) → P k v → Holds c → Holds (set now k v c)
  unfolding set
  set-Holds now k v c p h =
      let expires = if ltb 0 c.ttl then now + c.ttl else 0 in
      elim (Option-cases (find k c.items)) [
        | inl e ↦
            rw (e, set)
              (insert-Holds (record { key = k; val = v; expires = expires })
                (evict_down (length c.evict_list) c) p (evict_down-Holds (length c.evict_list) c h))
        | inr (el, e) ↦
            let own : k ≡ (c.heap el).key = sym (h k el e).1 in
            rw (e, set)
              (write_item-Holds el (record { key = (c.heap el).key; val = v; expires = expires })
                (record c { evict_list = move_to_front el c.evict_list }) refl
                (subst (λ x. P x v) own p) h)
      ]

  pub remove-Holds : (k : Bytes) (c : LruCache V) → Holds c → Holds (remove k c)
  unfolding remove
  remove-Holds k c h = elim (Option-cases (find k c.items)) [
    | inl e ↦ rw (e, remove) h
    | inr (el, e) ↦ rw (e, remove) (evict_element-Holds el c h)
  ]

  pub find-remove :
      (j k : Bytes) (c : LruCache V)
      → Holds c
      → find j (remove k c).items ≡ (if str_eq k j then none else find j c.items)
  unfolding remove evict_element
  find-remove j k c h = elim (Option-cases (find k c.items)) [
    | inl e ↦ rw (e, remove) (ground (arith, str_eq_iff k j))
    | inr (el, e) ↦ rw (e, remove) (rw (h k el e).1 (find-delete j k c.items))
  ]

  remove_entries-Holds :
      (predicate : Bytes → V → Bool) (entries : List (Bytes × ℕ)) (c : LruCache V)
      → Holds c
      → Holds (remove_entries predicate entries c).1
  unfolding remove_entries
  remove_entries-Holds predicate [] c h = h
  remove_entries-Holds predicate ((k, el) ∷ entries) c h =
      elim (Bool-cases (predicate k (c.heap el).val)) [
        | inl e ↦ rw e (
            remove_entries-Holds predicate entries (evict_element el c)
              (evict_element-Holds el c h))
        | inr e ↦ rw e (remove_entries-Holds predicate entries c h)
      ]

  pub remove_where-Holds :
      (predicate : Bytes → V → Bool) (c : LruCache V) → Holds c → Holds (remove_where predicate c).1
  unfolding remove_where
  remove_where-Holds predicate c h = remove_entries-Holds predicate c.items c h

  remove_entries_shrinks :
      (predicate : Bytes → V → Bool) (entries : List (Bytes × ℕ)) (c : LruCache V) (k : Bytes)
      (el : ℕ)
      → find k (remove_entries predicate entries c).1.items ≡ some el
      → (find k c.items ≡ some el) × ((remove_entries predicate entries c).1.heap el ≡ c.heap el)
  unfolding remove_entries evict_element
  remove_entries_shrinks predicate [] c k el f = (f, refl)
  remove_entries_shrinks predicate ((j, e) ∷ entries) c k el f =
      elim (Bool-cases (predicate j (c.heap e).val)) [
        | inl t ↦ ground (
          arith,
          remove_entries_shrinks predicate entries (evict_element e c) k el,
          find-delete k (c.heap e).key c.items,
        )
        | inr t ↦ ground (arith, remove_entries_shrinks predicate entries c k el)
      ]

  remove_entries_gone :
      (predicate : Bytes → V → Bool) (entries : List (Bytes × ℕ)) (c : LruCache V) (k : Bytes)
      (el : ℕ)
      → Holds c
      → find k (remove_entries predicate entries c).1.items ≡ some el
      → find k entries ≡ some el
      → predicate k (c.heap el).val ≡ false
  unfolding remove_entries evict_element find
  remove_entries_gone predicate [] c k el h f g = absurd (ground arith)
  remove_entries_gone predicate ((j, e) ∷ entries) c k el h f g =
      let own : (c.heap el).key ≡ k =
        (h k el (remove_entries_shrinks predicate ((j, e) ∷ entries) c k el f).0).1 in
      elim (Bool-cases (predicate j (c.heap e).val)) [
        | inl t ↦ ground (
          arith,
          own,
          str_eq_iff j k,
          str_eq_refl k,
          remove_entries_shrinks predicate entries (evict_element e c) k el,
          remove_entries_gone predicate entries (evict_element e c) k el
              (evict_element-Holds e c h),
          find-delete k (c.heap e).key c.items,
        )
        | inr t ↦ ground (arith, str_eq_iff j k, remove_entries_gone predicate entries c k el h)
      ]

-- After `RemoveWhere` every entry fails the predicate; after `Remove`, every entry has another key.
module _ {V : Type 0} (P : Bytes → V → Type 0) where
  pub remove_where_gone :
      (predicate : Bytes → V → Bool) (c : LruCache V)
      → Holds P c
      → Holds (λ k v. P k v × (predicate k v ≡ false)) (remove_where predicate c).1
  unfolding remove_where
  remove_where_gone predicate c h k el f =
      let (below, own, p) = remove_where-Holds P predicate c h k el f in
      let (old, same) = remove_entries_shrinks P predicate c.items c k el f in
      let out : predicate k (c.heap el).val ≡ false =
        remove_entries_gone P predicate c.items c k el h f old in
      (below, own, (p, subst (λ (item : Item V). predicate k item.val ≡ false) (sym same) out))

  pub remove_gone :
      (k : Bytes) (c : LruCache V)
      → Holds P c
      → Holds (λ j v. P j v × (str_eq k j ≡ false)) (remove k c)
  remove_gone k c h j el f =
      let (below, own, p) = remove-Holds P k c h j el f in
      (below, own, (p, ground (arith, find-remove P j k c h)))

  pub purge-Holds : (c : LruCache V) → Holds P (purge c)
  unfolding purge find
  purge-Holds c k el f = absurd (ground arith)

  pub Holds-weaken :
      (Q : Bytes → V → Type 0) (c : LruCache V)
      → ((k : Bytes) (v : V) → P k v → Q k v)
      → Holds P c
      → Holds Q c
  Holds-weaken Q c f h k el e = let (below, own, p) = h k el e in (below, own, f k _ p)
