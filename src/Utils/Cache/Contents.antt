-- ===== src/Utils/Cache/Contents.antt =====
-- The cache as a list of keys and values, the newest first.
use fat_fritz.Common.{
  ℕ, zero, suc, ◌-◌, ◌%◌, ◌≤◌, true, false, not, ◌&&◌, ◌==◌, ltb, if◌then◌else◌, List, [], ◌∷◌, map,
  Option, none, some, length, ◌≡◌, ◌≢◌, refl, ap, ap₂, sym, ◌∙◌, subst, arith, Bool-cases, inl, inr,
}
use fat_fritz.Common.Int.{pos}
use fat_fritz.Utils.Cache.Addresses.{has, remove, distinct, last, is_empty, has-last, length-remove}
use fat_fritz.Utils.Cache.{
  Item, Cache, update, find_key, evict_item, shrink_loop, shrink_to_capacity, evict_found,
  evict_key, insert_into_lru, add_item, insert,
}
use fat_fritz.Utils.Cache.Valid.{
  IsValid, evict_item-IsValid, shrink_to_capacity-IsValid, small_enough,
}
use fat_fritz.Utils.Cache.Insert.{Lacks, find_key-some, evict_key-Lacks, shrink_to_capacity-IsLess}

module _ {A : Type 0} where
  -- The first `n` entries.
  unfoldable pub take : ℕ → List A → List A
  take zero xs = []
  take (suc n) [] = []
  take (suc n) (x ∷ xs) = x ∷ take n xs

  take_all : (n : ℕ) (xs : List A) → length xs ≤ n → take n xs ≡ xs
  unfolding take
  take_all zero [] h = refl
  take_all zero (x ∷ xs) h = absurd (omega arith)
  take_all (suc n) [] h = refl
  take_all (suc n) (x ∷ xs) h = ap (λ ys. x ∷ ys) (take_all n xs (omega arith))

  take-take : (n m : ℕ) (xs : List A) → n ≤ m → take n (take m xs) ≡ take n xs
  unfolding take
  take-take zero m xs h = refl
  take-take (suc n) zero xs h = absurd (omega arith)
  take-take (suc n) (suc m) [] h = refl
  take-take (suc n) (suc m) (x ∷ xs) h = ap (λ ys. x ∷ ys) (take-take n m xs (omega arith))

take-map : {A B : Type 0} (f : A → B) (n : ℕ) (xs : List A) → take n (map f xs) ≡ map f (take n xs)
unfolding take
take-map f zero xs = refl
take-map f (suc n) [] = refl
take-map f (suc n) (x ∷ xs) = ap (λ ys. f x ∷ ys) (take-map f n xs)

-- The entries whose key is another.
unfoldable pub without_key : ℕ → List (ℕ × ℕ) → List (ℕ × ℕ)
without_key key [] = []
without_key key (e ∷ es) = let rest = without_key key es in if key == e.0 then rest else e ∷ rest

abbrev pub entry_of : (ℕ → Item) → ℕ → ℕ × ℕ
entry_of items a = ((items a).key, (items a).value)

-- What the cache holds.
abbrev pub contents : Cache → List (ℕ × ℕ)
contents c = map (entry_of c.items) c.queue

-- Taking the last entry away.
remove-last_of :
    (d : ℕ) (xs : List ℕ)
    → distinct (d ∷ xs) ≡ true
    → remove (last xs d) (d ∷ xs) ≡ take (length xs) (d ∷ xs)
unfolding remove last take distinct has
remove-last_of d [] h = ground arith
remove-last_of d (x ∷ xs) h =
    let rest = remove-last_of x xs (ground (arith, h)) in
    let inside : has (last xs x) (x ∷ xs) ≡ true = has-last 0 (x ∷ xs) refl in
    let moved : last xs x ≡ d → has d (x ∷ xs) ≡ true =
      λ q. subst (λ y. has y (x ∷ xs) ≡ true) q inside in
    let off : (last xs x == d) ≡ false = ground (arith, moved, h) in
    rw (off) (ap (λ ys. d ∷ ys) rest)

remove-last :
    (xs : List ℕ)
    → distinct xs ≡ true
    → is_empty xs ≡ false
    → remove (last xs 0) xs ≡ take (length xs - 1) xs
unfolding last
remove-last [] h k = absurd (ground (arith, k))
remove-last (x ∷ xs) h k = remove-last_of x xs h ∙ ap (λ n. take n (x ∷ xs)) (omega arith)

-- No entry has the key.
without_key-lacking :
    (items : ℕ → Item) (key : ℕ) (q : List ℕ)
    → ((x : ℕ) → has x q ≡ true → (key == (items x).key) ≡ false)
    → without_key key (map (entry_of items) q) ≡ map (entry_of items) q
unfolding without_key has
without_key-lacking items key [] h = refl
without_key-lacking items key (x ∷ q) h =
    let off = h x (ground arith) in
    rw (off) (
      ap (λ es. entry_of items x ∷ es)
        (without_key-lacking items key q (λ y k. h y (ground (arith, k)))))

-- An entry of the one address with the key.
without_key-remove :
    (items : ℕ → Item) (key a : ℕ) (q : List ℕ)
    → distinct q ≡ true
    → ((x : ℕ) → has x q ≡ true → (key == (items x).key) ≡ (x == a))
    → without_key key (map (entry_of items) q) ≡ map (entry_of items) (remove a q)
unfolding without_key remove has distinct
without_key-remove items key a [] d h = refl
without_key-remove items key a (x ∷ q) d h = elim (Bool-cases (x == a)) [
  | inl on ↦
      let hit : (key == (items x).key) ≡ true = h x (ground arith) ∙ on in
      let turned : (a == x) ≡ true = ground (arith, on) in
      let same : (y : ℕ) → y ≡ x → has y q ≡ has x q = λ y e. ap (λ z. has z q) e in
      rw (hit, turned)
        (without_key-lacking items key q
          (λ y k. h y (ground (arith, k)) ∙ ground (arith, k, on, d, same y)))
  | inr off ↦
      let miss : (key == (items x).key) ≡ false = h x (ground arith) ∙ off in
      let turned : (a == x) ≡ false = ground (arith, off) in
      rw (miss, turned)
        (ap (λ es. entry_of items x ∷ es)
          (without_key-remove items key a q (ground (arith, d)) (λ y k. h y (ground (arith, k)))))
]

-- Memory that changes at an address outside the queue.
map-update :
    (items : ℕ → Item) (a : ℕ) (item : Item) (q : List ℕ)
    → has a q ≡ false
    → map (entry_of (update items a item)) q ≡ map (entry_of items) q
unfolding has
map-update items a item [] h = refl
map-update items a item (x ∷ q) h =
    let off : (x == a) ≡ false = ground (arith, h) in
    rw (off) (ap (λ es. entry_of items x ∷ es) (map-update items a item q (ground (arith, h))))

module _ (hasher : ℕ → ℕ) where
  shrink_loop-take :
      (fuel : ℕ) (c : Cache) (n : ℕ)
      → IsValid hasher c
      → length c.queue ≤ fuel
      → (shrink_loop hasher fuel c n).queue ≡ take n c.queue
  unfolding shrink_loop evict_item
  shrink_loop-take zero c n v h = sym (take_all n c.queue (omega (arith, h)))
  shrink_loop-take (suc fuel) c n v h = elim (Bool-cases (not (is_empty c.queue) && ltb n c.size)) [
    | inl on ↦
        let tail = last c.queue 0 in
        let here = has-last 0 c.queue (ground (arith, on)) in
        let shorter = length-remove tail c.queue here in
        let rest =
          shrink_loop-take fuel (evict_item hasher c tail) n
            (evict_item-IsValid hasher c tail v here) (omega (arith, shorter, h)) in
        rw (on) (
          rest
          ∙ ap (take n) (remove-last c.queue v.queue_distinct (ground (arith, on)))
          ∙ take-take n (length c.queue - 1) c.queue (ground (arith, on, v.size_right)))
    | inr off ↦ rw (off) (
        sym (
          take_all n c.queue
            (omega (arith, v.size_right, small_enough hasher c.queue c.size n v.size_right off))))
  ]

  evict_found-contents :
      (c : Cache) (key : ℕ) (o : Option ℕ)
      → IsValid hasher c
      → find_key c.items key (c.chain (hasher key % c.buckets)) ≡ o
      → Lacks (evict_found hasher c o) key
      → contents (evict_found hasher c o) ≡ without_key key (contents c)
  unfolding evict_found evict_item
  evict_found-contents c key none v e lacks = sym (without_key-lacking c.items key c.queue lacks)
  evict_found-contents c key (some a) v e lacks =
      let found = find_key-some c.items key a (c.chain (hasher key % c.buckets)) e in
      let here : has a c.queue ≡ true =
        ground (arith, found, v.chained a (hasher key % c.buckets)) in
      let same : (x : ℕ) → x ≡ a → (c.items x).key ≡ (c.items a).key =
        λ x q. ap (λ y. (c.items y).key) q in
      sym (
        without_key-remove c.items key a c.queue v.queue_distinct
          (λ x hx. ground (arith, found, v.keys_differ a x here hx, same x)))

  shrink_to_capacity-contents :
      (c : Cache) (n : ℕ)
      → IsValid hasher c
      → contents (shrink_to_capacity hasher c n) ≡ take n (contents c)
  unfolding shrink_to_capacity
  shrink_to_capacity-contents c n v =
      let less = shrink_to_capacity-IsLess hasher c n v in
      ap₂ (λ items q. map (entry_of items) q) less.same_items
        (shrink_loop-take (length c.queue) c n v (omega arith))
      ∙ sym (take-map (entry_of c.items) n c.queue)

  evict_key-contents :
      (c : Cache) (key : ℕ)
      → IsValid hasher c
      → contents (evict_key hasher c key) ≡ without_key key (contents c)
  unfolding evict_key
  evict_key-contents c key v =
      evict_found-contents c key (find_key c.items key (c.chain (hasher key % c.buckets))) v refl
        (evict_key-Lacks hasher c key v).1

  add_item-contents :
      (c : Cache) (key value : ℕ)
      → IsValid hasher c
      → contents (add_item hasher c key value) ≡ (key, value) ∷ contents c
  unfolding add_item insert_into_lru
  add_item-contents c key value v =
      let itself : (c.fresh == c.fresh) ≡ true = ground arith in
      let unused : has c.fresh c.queue ≡ false = ground (arith, v.in_use c.fresh) in
      rw (itself) (
        ap (λ es. (key, value) ∷ es)
          (map-update c.items c.fresh (record { key = key; value = value; pins = pos 0 }) c.queue
            unused))

  -- Inserting a key into a valid cache whose capacity is not 0 leaves the new entry followed by
  -- the entries of the other keys in their order, cut to one less than the capacity: the hash
  -- chains and the queue implement a list of keys and values that drops the oldest.
  pub contents-insert :
      (c : Cache) (key value : ℕ)
      → IsValid hasher c
      → c.capacity ≢ 0
      → contents (insert hasher c key value)
        ≡ (key, value) ∷ take (c.capacity - 1) (without_key key (contents c))
  unfolding insert
  contents-insert c key value v some_room =
      let off : (c.capacity == 0) ≡ false = ground (arith, some_room) in
      let (w, lacks, less) = evict_key-Lacks hasher c key v in
      let small = shrink_to_capacity-IsValid hasher (evict_key hasher c key) (c.capacity - 1) w in
      rw (off) (
        add_item-contents (shrink_to_capacity hasher (evict_key hasher c key) (c.capacity - 1)) key
          value small
        ∙ ap (λ es. (key, value) ∷ es)
            (shrink_to_capacity-contents (evict_key hasher c key) (c.capacity - 1) w
              ∙ ap (take (c.capacity - 1)) (evict_key-contents c key v)))
