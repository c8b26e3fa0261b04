-- ===== src/Auth/Lru/Capacity.antt =====
-- The cache of internal/auth/lru.go: what was set is read back, and the capacity is kept.
use proofgate.Base.{
  ℕ, zero, suc, ◌+◌, ◌<◌, ◌≤◌, ◌≡◌, refl, ap, ◌∙◌, ◌⊎◌, inl, inr, Bool, true, false, ◌&&◌, some,
  List, [], ◌∷◌, length, ltb, leb, arith, Option-cases, Bool-cases, if◌then◌else◌, ◌==◌,
}
use proofgate.Base.Bytes.{Bytes, str_eq_refl}
use proofgate.Auth.Lru.{
  Item, LruCache, find, is_element, unlink, move_to_front, back, new_lru, evict_element,
  evict_oldest, get, evict_down, write_item, insert, set, remove, remove_entries, remove_where,
  purge, len,
}

unlink_le : (el : ℕ) (es : List ℕ) → length (unlink el es) ≤ length es
unfolding unlink
unlink_le el [] = omega arith
unlink_le el (e ∷ es) = ground (arith, unlink_le el es)

unlink_element :
    (el : ℕ) (es : List ℕ) → is_element el es ≡ true → length (unlink el es) + 1 ≡ length es
unfolding unlink is_element
unlink_element el [] h = ground arith
unlink_element el (e ∷ es) h = ground (arith, unlink_element el es)

length-move_to_front : (el : ℕ) (es : List ℕ) → length (move_to_front el es) ≡ length es
unfolding move_to_front
length-move_to_front el es = ground (arith, unlink_element el es)

back_element :
    (es : List ℕ) → (es ≡ []) ⊎ ((el : ℕ) × (back es ≡ some el) × (is_element el es ≡ true))
unfolding back is_element
back_element [] = inl refl
back_element (e ∷ []) = inr (e, refl, ground arith)
back_element (e ∷ d ∷ es) = elim (back_element (d ∷ es)) [
  | inl h ↦ ground arith
  | inr (el, b, m) ↦ inr (el, b, ground (arith, m))
]

pub data Op (V : Type 0) : Type 0 where
  gets : Bytes → Op V
  sets : Bytes → V → Op V
  removes : Bytes → Op V
  removes_where : (Bytes → V → Bool) → Op V
  purges : Op V

not_expired :
    (ttl now later : ℕ)
    → later ≤ now + ttl
    → (ltb 0 ttl && ltb (if ltb 0 ttl then now + ttl else 0) later) ≡ false
not_expired ttl now later h = ground arith

module _ {V : Type 0} where
  evict_oldest_settings :
      (c : LruCache V) → ((evict_oldest c).ttl ≡ c.ttl) × ((evict_oldest c).capacity ≡ c.capacity)
  unfolding evict_oldest evict_element
  evict_oldest_settings c = elim (Option-cases (back c.evict_list)) [
    | inl e ↦ rw (e, evict_oldest) (refl, refl)
    | inr (el, e) ↦ rw (e, evict_oldest) (refl, refl)
  ]

  evict_down_settings :
      (n : ℕ) (c : LruCache V)
      → ((evict_down n c).ttl ≡ c.ttl) × ((evict_down n c).capacity ≡ c.capacity)
  unfolding evict_down
  evict_down_settings zero c = (refl, refl)
  evict_down_settings (suc n) c =
      let rest = evict_down_settings n (evict_oldest c) in
      let first = evict_oldest_settings c in
      elim (Bool-cases (leb c.capacity (length c.evict_list))) [
        | inl e ↦ rw (e, evict_down) (rest.0 ∙ first.0, rest.1 ∙ first.1)
        | inr e ↦ rw (e, evict_down) (refl, refl)
      ]

  write_item_at : (el : ℕ) (item : Item V) (c : LruCache V) → (write_item el item c).heap el ≡ item
  unfolding write_item
  write_item_at el item c = ground arith

  get_found :
      (now : ℕ) (k : Bytes) (el : ℕ) (c : LruCache V)
      → find k c.items ≡ some el
      → (ltb 0 c.ttl && ltb (c.heap el).expires now) ≡ false
      → (get now k c).0 ≡ some (c.heap el).val
  unfolding get
  get_found now k el c e h = rw (e, get) (rw h refl)

  insert_found :
      (item : Item V) (c : LruCache V) → find item.key (insert item c).items ≡ some c.next
  unfolding insert write_item find
  insert_found item c = rw (str_eq_refl item.key) refl

  -- What was set under a key is read back while it has not expired.
  pub get-set :
      (now later : ℕ) (k : Bytes) (v : V) (c : LruCache V)
      → later ≤ now + c.ttl
      → (get later k (set now k v c)).0 ≡ some v
  unfolding set insert write_item
  get-set now later k v c h =
      let expires = if ltb 0 c.ttl then now + c.ttl else 0 in
      elim (Option-cases (find k c.items)) [
        | inr (el, e) ↦
            let item : Item V = record { key = (c.heap el).key; val = v; expires = expires } in
            let c' = write_item el item (record c { evict_list = move_to_front el c.evict_list }) in
            let at : c'.heap el ≡ item =
              write_item_at el item (record c { evict_list = move_to_front el c.evict_list }) in
            rw (e, set)
              (get_found later k el c' e
                  (ap (λ i. ltb 0 c.ttl && ltb i.expires later) at ∙ not_expired c.ttl now later h)
                ∙ ap (λ i. some i.val) at)
        | inl e ↦
            let item : Item V = record { key = k; val = v; expires = expires } in
            let d = evict_down (length c.evict_list) c in
            let at : (insert item d).heap d.next ≡ item = write_item_at d.next item d in
            rw (e, set)
              (get_found later k d.next (insert item d) (insert_found item d) (
                  ap (λ i. ltb 0 d.ttl && ltb i.expires later) at
                  ∙ (ap (λ t. ltb 0 t && ltb expires later)
                        (evict_down_settings (length c.evict_list) c).0
                      ∙ not_expired c.ttl now later h))
                ∙ ap (λ i. some i.val) at)
      ]

  length-evict_oldest :
      (c : LruCache V)
      → 0 < length c.evict_list
      → length (evict_oldest c).evict_list + 1 ≡ length c.evict_list
  unfolding evict_oldest evict_element
  length-evict_oldest c h = elim (back_element c.evict_list) [
    | inl e ↦ absurd (omega (arith, ap length e, h))
    | inr (el, b, m) ↦ rw (b, evict_oldest) (unlink_element el c.evict_list m)
  ]

  evict_down_room :
      (n : ℕ) (c : LruCache V)
      → length c.evict_list ≤ n
      → 0 < c.capacity
      → length (evict_down n c).evict_list < c.capacity
  unfolding evict_down
  evict_down_room zero c h p = omega (arith, h, p)
  evict_down_room (suc n) c h p = elim (Bool-cases (leb c.capacity (length c.evict_list))) [
    | inr e ↦ rw (e, evict_down) (ground (arith, e))
    | inl e ↦
        let settings = (evict_oldest_settings c).1 in
        let full : 0 < length c.evict_list = ground (arith, e, p) in
        let shorter = length-evict_oldest c full in
        let fits : length (evict_oldest c).evict_list ≤ n = omega (arith, shorter, h) in
        let positive : 0 < (evict_oldest c).capacity = rw settings p in
        let room = evict_down_room n (evict_oldest c) fits positive in
        rw (e, evict_down) (omega (arith, room, settings))
  ]

  -- `Set` keeps the length of the list within a positive capacity.
  set_capacity :
      (now : ℕ) (k : Bytes) (v : V) (c : LruCache V)
      → 0 < c.capacity
      → length c.evict_list ≤ c.capacity
      → (length (set now k v c).evict_list ≤ c.capacity) × ((set now k v c).capacity ≡ c.capacity)
  unfolding set insert write_item
  set_capacity now k v c p h = elim (Option-cases (find k c.items)) [
    | inr (el, e) ↦ rw (e, set) (omega (arith, length-move_to_front el c.evict_list, h), refl)
    | inl e ↦
        rw (e, set)
          (
            omega (arith, evict_down_room (length c.evict_list) c (omega arith) p),
            (evict_down_settings (length c.evict_list) c).1,
          )
  ]

  get_capacity :
      (now : ℕ) (k : Bytes) (c : LruCache V)
      → (length (get now k c).1.evict_list ≤ length c.evict_list)
        × ((get now k c).1.capacity ≡ c.capacity)
  unfolding get evict_element
  get_capacity now k c = elim (Option-cases (find k c.items)) [
    | inl e ↦ rw (e, get) (omega arith, refl)
    | inr (el, e) ↦ elim (Bool-cases (ltb 0 c.ttl && ltb (c.heap el).expires now)) [
      | inl x ↦ rw (e, get) (rw x (unlink_le el c.evict_list, refl))
      | inr x ↦ rw (e, get) (rw x (omega (arith, length-move_to_front el c.evict_list), refl))
    ]
  ]

  remove_capacity :
      (k : Bytes) (c : LruCache V)
      → (length (remove k c).evict_list ≤ length c.evict_list)
        × ((remove k c).capacity ≡ c.capacity)
  unfolding remove evict_element
  remove_capacity k c = elim (Option-cases (find k c.items)) [
    | inl e ↦ rw (e, remove) (omega arith, refl)
    | inr (el, e) ↦ rw (e, remove) (unlink_le el c.evict_list, refl)
  ]

  remove_entries_capacity :
      (predicate : Bytes → V → Bool) (entries : List (Bytes × ℕ)) (c : LruCache V)
      → (length (remove_entries predicate entries c).1.evict_list ≤ length c.evict_list)
        × ((remove_entries predicate entries c).1.capacity ≡ c.capacity)
  unfolding remove_entries evict_element
  remove_entries_capacity predicate [] c = (omega arith, refl)
  remove_entries_capacity predicate ((k, el) ∷ entries) c =
      elim (Bool-cases (predicate k (c.heap el).val)) [
        | inl e ↦
            let rest = remove_entries_capacity predicate entries (evict_element el c) in
            rw (e, remove_entries) (omega (arith, rest.0, unlink_le el c.evict_list), rest.1)
        | inr e ↦ rw (e, remove_entries) (remove_entries_capacity predicate entries c)
      ]

  pub apply : LruCache V → ℕ × Op V → LruCache V
  apply c (now, gets k) = (get now k c).1
  apply c (now, sets k v) = set now k v c
  apply c (now, removes k) = remove k c
  apply c (now, removes_where predicate) = (remove_where predicate c).1
  apply c (now, purges) = purge c

  pub apply_all : LruCache V → List (ℕ × Op V) → LruCache V
  unfolding apply
  apply_all c [] = c
  apply_all c (op ∷ ops) = apply_all (apply c op) ops

  abbrev IsBounded : ℕ → LruCache V → Type 0
  IsBounded n c = (c.capacity ≡ n) × (length c.evict_list ≤ n)

  apply-IsBounded :
      (n : ℕ) (c : LruCache V) (op : ℕ × Op V) → 0 < n → IsBounded n c → IsBounded n (apply c op)
  unfolding apply remove_where purge
  apply-IsBounded n c (now, gets k) p (e, h) =
      let (l, same) = get_capacity now k c in (same ∙ e, omega (arith, l, h))
  apply-IsBounded n c (now, sets k v) p (e, h) =
      let (l, same) = set_capacity now k v c (omega (arith, e, p)) (omega (arith, e, h)) in
      (same ∙ e, omega (arith, l, e))
  apply-IsBounded n c (now, removes k) p (e, h) =
      let (l, same) = remove_capacity k c in (same ∙ e, omega (arith, l, h))
  apply-IsBounded n c (now, removes_where predicate) p (e, h) =
      let (l, same) = remove_entries_capacity predicate c.items c in (same ∙ e, omega (arith, l, h))
  apply-IsBounded n c (now, purges) p (e, h) = (e, omega arith)

  apply_all-IsBounded :
      (n : ℕ) (c : LruCache V) (ops : List (ℕ × Op V))
      → 0 < n
      → IsBounded n c
      → IsBounded n (apply_all c ops)
  unfolding apply_all
  apply_all-IsBounded n c [] p h = h
  apply_all-IsBounded n c (op ∷ ops) p h =
      apply_all-IsBounded n (apply c op) ops p (apply-IsBounded n c op p h)

  -- After any operations on a new cache, it holds at most its capacity of elements, which is the one
  -- asked for, or 1000 where that is zero.
  pub within_capacity :
      (v : V) (capacity ttl : ℕ) (ops : List (ℕ × Op V))
      → len (apply_all (new_lru v capacity ttl) ops) ≤ (if capacity == 0 then 1000 else capacity)
  unfolding len new_lru
  within_capacity v capacity ttl ops =
      let n = if capacity == 0 then 1000 else capacity in
      let positive : 0 < n = ground arith in
      (apply_all-IsBounded n (new_lru v capacity ttl) ops positive (refl, omega arith)).1
