-- ===== src/Utils/Cache/Valid.antt =====
-- What a cache satisfies at all times, and that evicting items keeps it.
use fat_fritz.Common.{
  ℕ, zero, suc, ◌+◌, ◌%◌, ◌<◌, ◌≤◌, Bool, true, false, not, ◌&&◌, ◌||◌, ◌==◌, ltb, if◌then◌else◌,
  List, length, ◌≡◌, refl, ap, ◌∙◌, arith,
}
use fat_fritz.Common.Int.{pos, eq_ℤ}
use fat_fritz.Utils.Cache.Addresses.{
  has, last, distinct, has-remove, distinct-remove, length-remove, has-last, is_empty,
}
use fat_fritz.Utils.Cache.{Cache, evict_item, shrink_loop, shrink_to_capacity}

module _ (hasher : ℕ → ℕ) where
  -- The counts are right, the queue and the list of evicted items share no item and hold none twice,
  -- an item stands in the chain of its key exactly while it is in the queue, no two items in the queue
  -- have the same key, and an evicted item is pinned.
  pub record IsValid (c : Cache) : Type 0 where
    pub size_right : c.size ≡ length c.queue
    pub allocated_right : c.allocated ≡ length c.queue + length c.evicted
    pub queue_distinct : distinct c.queue ≡ true
    pub evicted_distinct : distinct c.evicted ≡ true
    pub apart : (a : ℕ) → (has a c.queue && has a c.evicted) ≡ false
    pub in_use : (a : ℕ) → (has a c.queue || has a c.evicted) ≡ true → a < c.fresh
    pub chained :
        (a b : ℕ) → has a (c.chain b) ≡ (has a c.queue && b == hasher (c.items a).key % c.buckets)
    pub chains_distinct : (b : ℕ) → distinct (c.chain b) ≡ true
    pub keys_differ :
        (a a' : ℕ)
        → has a c.queue ≡ true
        → has a' c.queue ≡ true
        → (c.items a).key ≡ (c.items a').key
        → a ≡ a'
    pub pinned : (a : ℕ) → has a c.evicted ≡ true → eq_ℤ (c.items a).pins (pos 0) ≡ false

  either :
      (on : Bool) (c d : Cache)
      → (on ≡ true → IsValid c)
      → IsValid d
      → IsValid (if on then c else d)
  either true c d v w = v refl
  either false c d v w = w

  pub evict_item-IsValid :
      (c : Cache) (a : ℕ) → IsValid c → has a c.queue ≡ true → IsValid (evict_item hasher c a)
  unfolding evict_item has distinct
  evict_item-IsValid c a v here =
      let b = hasher (c.items a).key % c.buckets in
      let found : has a (c.chain b) ≡ true = v.chained a b ∙ ground (arith, here) in
      let same_pins : (x : ℕ) → x ≡ a → (c.items x).pins ≡ (c.items a).pins =
        λ x e. ap (λ y. (c.items y).pins) e in
      record {
        size_right = ground (arith, v.size_right, length-remove a c.queue here);
        allocated_right = ground (arith, v.allocated_right, found, length-remove a c.queue here);
        queue_distinct = distinct-remove a c.queue v.queue_distinct;
        evicted_distinct = ground (arith, v.evicted_distinct, v.apart a, here);
        apart = λ x. ground (arith, v.apart x, has-remove a x c.queue v.queue_distinct);
        in_use =
            λ x h. v.in_use x (ground (arith, h, here, has-remove a x c.queue v.queue_distinct));
        chained = λ x y. ground (
          arith,
          v.chained x y,
          has-remove a x (c.chain y) (v.chains_distinct y),
          has-remove a x c.queue v.queue_distinct,
        );
        chains_distinct = λ y. ground (
          arith,
          v.chains_distinct y,
          v.chains_distinct b,
          distinct-remove a (c.chain b) (v.chains_distinct b),
        );
        keys_differ = λ x y hx hy e.
            v.keys_differ x y (ground (arith, hx, has-remove a x c.queue v.queue_distinct))
              (ground (arith, hy, has-remove a y c.queue v.queue_distinct)) e;
        pinned = λ x h. ground (arith, v.pinned x, h, same_pins x);
      }

  shrink_loop-IsValid :
      (fuel : ℕ) (c : Cache) (capacity : ℕ)
      → IsValid c
      → IsValid (shrink_loop hasher fuel c capacity)
  unfolding shrink_loop
  shrink_loop-IsValid zero c capacity v = v
  shrink_loop-IsValid (suc fuel) c capacity v =
      let tail = last c.queue 0 in
      either (not (is_empty c.queue) && ltb capacity c.size) _ _
        (λ on.
          shrink_loop-IsValid fuel (evict_item hasher c tail) capacity
            (evict_item-IsValid c tail v (has-last 0 c.queue (ground (arith, on)))))
        v

  pub shrink_to_capacity-IsValid :
      (c : Cache) (capacity : ℕ) → IsValid c → IsValid (shrink_to_capacity hasher c capacity)
  unfolding shrink_to_capacity
  shrink_to_capacity-IsValid c capacity v = shrink_loop-IsValid (length c.queue) c capacity v

  evict_shorter :
      (c : Cache) (a fuel : ℕ)
      → has a c.queue ≡ true
      → length c.queue ≤ suc fuel
      → length (evict_item hasher c a).queue ≤ fuel
  unfolding evict_item
  evict_shorter c a fuel here h = omega (arith, length-remove a c.queue here, h)

  smaller :
      (on : Bool) (capacity : ℕ) (d c : Cache)
      → (on ≡ true → d.size ≤ capacity)
      → (on ≡ false → c.size ≤ capacity)
      → (if on then d else c).size ≤ capacity
  smaller true capacity d c h k = h refl
  smaller false capacity d c h k = k refl

  pub small_enough :
      (q : List ℕ) (size capacity : ℕ)
      → size ≡ length q
      → (not (is_empty q) && ltb capacity size) ≡ false
      → size ≤ capacity
  small_enough q size capacity e off = ground (arith, e, off)

  -- The fuel is enough: the size comes down to the capacity.
  shrink_loop-size :
      (fuel : ℕ) (c : Cache) (capacity : ℕ)
      → IsValid c
      → length c.queue ≤ fuel
      → (shrink_loop hasher fuel c capacity).size ≤ capacity
  unfolding shrink_loop
  shrink_loop-size zero c capacity v h = ground (arith, v.size_right, h)
  shrink_loop-size (suc fuel) c capacity v h =
      let tail = last c.queue 0 in
      smaller (not (is_empty c.queue) && ltb capacity c.size) capacity _ c
        (λ on.
          let here = has-last 0 c.queue (ground (arith, on)) in
          shrink_loop-size fuel (evict_item hasher c tail) capacity
            (evict_item-IsValid c tail v here) (evict_shorter c tail fuel here h))
        (λ off. small_enough c.queue c.size capacity v.size_right off)

  -- The loop of ShrinkToCapacity ends within as many rounds as the queue has items: a valid cache
  -- comes down to the capacity that is asked for.
  pub shrink_to_capacity-size :
      (c : Cache) (capacity : ℕ)
      → IsValid c
      → (shrink_to_capacity hasher c capacity).size ≤ capacity
  unfolding shrink_to_capacity
  shrink_to_capacity-size c capacity v =
      shrink_loop-size (length c.queue) c capacity v (omega arith)
