-- ===== src/Utils/Cache/Insert.antt =====
-- Insert keeps a cache valid.
use fat_fritz.Common.{
  ℕ, zero, suc, ◌%◌, Bool, true, false, not, ◌&&◌, ◌||◌, ◌==◌, ltb, if◌then◌else◌, List, [], ◌∷◌,
  Option, none, some, length, ◌≡◌, inl, inr, refl, ap, ◌∙◌, arith, Bool-cases,
}
use fat_fritz.Common.Int.{pos}
use fat_fritz.Utils.Cache.Addresses.{has, distinct, last, is_empty, has-remove, has-last}
use fat_fritz.Utils.Cache.{
  Item, Cache, update, find_key, evict_item, shrink_loop, shrink_to_capacity, evict_found,
  evict_key, insert_into_lru, add_item,
}
use fat_fritz.Utils.Cache.Valid.{IsValid, evict_item-IsValid}

pub find_key-none :
    (items : ℕ → Item) (key a : ℕ) (xs : List ℕ)
    → find_key items key xs ≡ none
    → has a xs ≡ true
    → (key == (items a).key) ≡ false
unfolding find_key has
find_key-none items key a [] e h = absurd (ground (arith, h))
find_key-none items key a (x ∷ xs) e h =
    let same : a ≡ x → (items a).key ≡ (items x).key = λ q. ap (λ y. (items y).key) q in
    ground (arith, e, h, same, find_key-none items key a xs)

pub find_key-some :
    (items : ℕ → Item) (key a : ℕ) (xs : List ℕ)
    → find_key items key xs ≡ some a
    → (has a xs ≡ true) × (key ≡ (items a).key)
unfolding find_key has
find_key-some items key a [] e = absurd (ground (arith, e))
find_key-some items key a (x ∷ xs) e =
    let rest = find_key-some items key a xs in
    let same : a ≡ x → (items a).key ≡ (items x).key = λ q. ap (λ y. (items y).key) q in
    ground (arith, e, same, rest)

-- No item of the queue has the key.
abbrev pub Lacks : Cache → ℕ → Type 0
Lacks c key = (a : ℕ) → has a c.queue ≡ true → (key == (c.items a).key) ≡ false

-- The second cache has the items of the first, and no more in its queue.
pub record IsLess (c d : Cache) : Type 0 where
  pub same_items : d.items ≡ c.items
  pub same_fresh : d.fresh ≡ c.fresh
  pub same_capacity : d.capacity ≡ c.capacity
  pub queue_less : (a : ℕ) → has a d.queue ≡ true → has a c.queue ≡ true

IsLess-refl : (c : Cache) → IsLess c c
IsLess-refl c = record {
  same_items = refl;
  same_fresh = refl;
  same_capacity = refl;
  queue_less = λ a h. h;
}

IsLess-trans : (c d e : Cache) → IsLess c d → IsLess d e → IsLess c e
IsLess-trans c d e h k = record {
  same_items = k.same_items ∙ h.same_items;
  same_fresh = k.same_fresh ∙ h.same_fresh;
  same_capacity = k.same_capacity ∙ h.same_capacity;
  queue_less = λ a q. h.queue_less a (k.queue_less a q);
}

IsLess-if :
    (on : Bool) (c d e : Cache)
    → (on ≡ true → IsLess c d)
    → IsLess c e
    → IsLess c (if on then d else e)
IsLess-if true c d e h k = h refl
IsLess-if false c d e h k = k

pub Lacks-IsLess : (c d : Cache) (key : ℕ) → IsLess c d → Lacks c key → Lacks d key
Lacks-IsLess c d key less h a here =
    ap (λ items. key == (items a).key) less.same_items ∙ h a (less.queue_less a here)

module _ (hasher : ℕ → ℕ) where
  evict_item-IsLess : (c : Cache) (a : ℕ) → IsValid hasher c → IsLess c (evict_item hasher c a)
  unfolding evict_item
  evict_item-IsLess c a v = record {
    same_items = refl;
    same_fresh = refl;
    same_capacity = refl;
    queue_less = λ x h. ground (arith, h, has-remove a x c.queue v.queue_distinct);
  }

  shrink_loop-IsLess :
      (fuel : ℕ) (c : Cache) (capacity : ℕ)
      → IsValid hasher c
      → IsLess c (shrink_loop hasher fuel c capacity)
  unfolding shrink_loop
  shrink_loop-IsLess zero c capacity v = IsLess-refl c
  shrink_loop-IsLess (suc fuel) c capacity v =
      let tail = last c.queue 0 in
      IsLess-if (not (is_empty c.queue) && ltb capacity c.size) c _ c
        (λ on.
          let w = evict_item-IsValid hasher c tail v (has-last 0 c.queue (ground (arith, on))) in
          IsLess-trans c (evict_item hasher c tail) _ (evict_item-IsLess c tail v)
            (shrink_loop-IsLess fuel (evict_item hasher c tail) capacity w))
        (IsLess-refl c)

  pub shrink_to_capacity-IsLess :
      (c : Cache) (capacity : ℕ)
      → IsValid hasher c
      → IsLess c (shrink_to_capacity hasher c capacity)
  unfolding shrink_to_capacity
  shrink_to_capacity-IsLess c capacity v = shrink_loop-IsLess (length c.queue) c capacity v

  -- The key stands in the queue once at most, and no more after it was evicted.
  evict_found-Lacks :
      (c : Cache) (key : ℕ) (o : Option ℕ)
      → IsValid hasher c
      → find_key c.items key (c.chain (hasher key % c.buckets)) ≡ o
      → IsValid hasher (evict_found hasher c o)
        × Lacks (evict_found hasher c o) key
        × IsLess c (evict_found hasher c o)
  unfolding evict_found evict_item
  evict_found-Lacks c key none v e = (
    v,
    λ a here.
        let same_key : key ≡ (c.items a).key → hasher key ≡ hasher (c.items a).key =
          λ q. ap hasher q in
        ground (
          arith,
          here,
          same_key,
          v.chained a (hasher key % c.buckets),
          find_key-none c.items key a (c.chain (hasher key % c.buckets)) e,
        ),
    IsLess-refl c,
  )
  evict_found-Lacks c key (some a) v e =
      let found = find_key-some c.items key a (c.chain (hasher key % c.buckets)) e in
      let here : has a c.queue ≡ true =
        ground (arith, found, v.chained a (hasher key % c.buckets)) in
      (
        evict_item-IsValid hasher c a v here,
        λ x hx.
            ground
              (arith, hx, found, here, v.keys_differ a x, has-remove a x c.queue v.queue_distinct),
        evict_item-IsLess c a v,
      )

  pub evict_key-Lacks :
      (c : Cache) (key : ℕ)
      → IsValid hasher c
      → IsValid hasher (evict_key hasher c key)
        × Lacks (evict_key hasher c key) key
        × IsLess c (evict_key hasher c key)
  unfolding evict_key
  evict_key-Lacks c key v =
      evict_found-Lacks c key (find_key c.items key (c.chain (hasher key % c.buckets))) v refl

  new_place :
      (c : Cache) (key value x : ℕ)
      → (hasher (update c.items c.fresh (record { key = key; value = value; pins = pos 0 }) x).key
          % c.buckets)
        ≡ (if x == c.fresh then hasher key % c.buckets else hasher (c.items x).key % c.buckets)
  new_place c key value x = elim (Bool-cases (x == c.fresh)) [
    | inl on ↦ rw (on) refl
    | inr off ↦ rw (off) refl
  ]

  pub add_item-IsValid :
      (c : Cache) (key value : ℕ)
      → IsValid hasher c
      → Lacks c key
      → IsValid hasher (add_item hasher c key value)
  unfolding add_item insert_into_lru has distinct
  add_item-IsValid c key value v lacks =
      let a = c.fresh in
      let unused : (has a c.queue || has a c.evicted) ≡ false = ground (arith, v.in_use a) in
      let new_items = update c.items a (record { key = key; value = value; pins = pos 0 }) in
      let b = hasher key % c.buckets in
      let in_queue : (x : ℕ) → x ≡ a → has x c.queue ≡ has a c.queue =
        λ x q. ap (λ y. has y c.queue) q in
      let in_evicted : (x : ℕ) → x ≡ a → has x c.evicted ≡ has a c.evicted =
        λ x q. ap (λ y. has y c.evicted) q in
      let place : (x : ℕ)
          → (hasher (new_items x).key % c.buckets)
            ≡ (if x == a then b else hasher (c.items x).key % c.buckets) =
        λ x. new_place c key value x in
      record {
        size_right = ground (arith, v.size_right);
        allocated_right = ground (arith, v.allocated_right);
        queue_distinct = ground (arith, v.queue_distinct, unused);
        evicted_distinct = v.evicted_distinct;
        apart = λ x. ground (arith, v.apart x, in_evicted x, unused);
        in_use = λ x h. ground (arith, v.in_use x, h);
        chained = λ x y.
            ground
              (arith, v.chained x y, v.chained a b, v.chained x b, place x, in_queue x, unused);
        chains_distinct =
            λ y. ground (arith, v.chains_distinct y, v.chains_distinct b, v.chained a b, unused);
        keys_differ = λ x y hx hy e. ground (arith, hx, hy, e, v.keys_differ x y, lacks x, lacks y);
        pinned = λ x h. ground (arith, v.pinned x, in_evicted x, unused, h);
      }
