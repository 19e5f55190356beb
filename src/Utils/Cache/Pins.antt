-- ===== src/Utils/Cache/Pins.antt =====
-- LookupAndPin and Unpin keep a cache valid.
use fat_fritz.Common.{
  ℕ, ◌-◌, ◌%◌, true, false, ◌&&◌, ◌==◌, List, [], ◌∷◌, Option, none, some, ◌≡◌, refl, ap, sym, ◌∙◌,
  arith, Bool-cases, inl, inr,
}
use fat_fritz.Common.Int.{ℤ, pos, neg, ◌+ℤ◌, eq_ℤ}
use fat_fritz.Utils.Cache.Addresses.{has, remove, has-remove, distinct-remove, length-remove}
use fat_fritz.Utils.Cache.{
  Item, Cache, repinned, find_key, find_entry, pin_found, lookup_and_pin, unpin_active,
  unpin_evicted, unpin,
}
use fat_fritz.Utils.Cache.Valid.{IsValid}
use fat_fritz.Utils.Cache.Insert.{find_key-some}

pub repinned-key : (items : ℕ → Item) (a x : ℕ) (n : ℤ) → (repinned items a n x).key ≡ (items x).key
repinned-key items a x n = elim (Bool-cases (x == a)) [
  | inl on ↦ rw (on) (ap (λ y. (items y).key) {x = a} {y = x} (ground (arith, on)))
  | inr off ↦ rw (off) refl
]

repinned-other :
    (items : ℕ → Item) (a x : ℕ) (n : ℤ) → (x == a) ≡ false → repinned items a n x ≡ items x
repinned-other items a x n off = rw (off) refl

repinned-itself :
    (items : ℕ → Item) (a : ℕ) (n : ℤ) → (repinned items a n a).pins ≡ ((items a).pins +ℤ n)
repinned-itself items a n = let same : (a == a) ≡ true = ground arith in rw (same) refl

find_entry-some :
    (items : ℕ → Item) (key value a : ℕ) (xs : List ℕ)
    → find_entry items key value xs ≡ some a
    → has a xs ≡ true
unfolding find_entry has
find_entry-some items key value a [] e = absurd (ground (arith, e))
find_entry-some items key value a (x ∷ xs) e =
    let rest = find_entry-some items key value a xs in ground (arith, e, rest)

module _ (hasher : ℕ → ℕ) where
  -- Pins of an item change, but an evicted item keeps one at least.
  repinned-IsValid :
      (c : Cache) (a : ℕ) (n : ℤ)
      → IsValid hasher c
      → (has a c.evicted ≡ true → eq_ℤ ((c.items a).pins +ℤ n) (pos 0) ≡ false)
      → IsValid hasher (record c { items = repinned c.items a n })
  repinned-IsValid c a n v still = record {
    size_right = v.size_right;
    allocated_right = v.allocated_right;
    queue_distinct = v.queue_distinct;
    evicted_distinct = v.evicted_distinct;
    apart = v.apart;
    in_use = v.in_use;
    chained = λ x y.
        v.chained x y
        ∙ ap (λ k. has x c.queue && y == hasher k % c.buckets) (sym (repinned-key c.items a x n));
    chains_distinct = v.chains_distinct;
    keys_differ = λ x y hx hy e.
        v.keys_differ x y hx hy (sym (repinned-key c.items a x n) ∙ e ∙ repinned-key c.items a y n);
    pinned = λ x h. elim (Bool-cases (x == a)) [
      | inl on ↦
          rw (on) (still (ap (λ y. has y c.evicted) {x = a} {y = x} (ground (arith, on)) ∙ h))
      | inr off ↦ rw (off) (v.pinned x h)
    ];
  }

  -- An item of a chain is not evicted.
  not_evicted :
      (c : Cache) (a b : ℕ) → IsValid hasher c → has a (c.chain b) ≡ true → has a c.evicted ≡ false
  not_evicted c a b v h = ground (arith, v.chained a b, h, v.apart a)

  pin_found-IsValid :
      (c : Cache) (key : ℕ) (o : Option ℕ)
      → IsValid hasher c
      → find_key c.items key (c.chain (hasher key % c.buckets)) ≡ o
      → IsValid hasher (pin_found hasher c o).1
  unfolding pin_found
  pin_found-IsValid c key none v e = v
  pin_found-IsValid c key (some a) v e =
      let found = find_key-some c.items key a (c.chain (hasher key % c.buckets)) e in
      let away = not_evicted c a (hasher key % c.buckets) v found.0 in
      repinned-IsValid c a (pos 1) v (λ h. absurd (ground (arith, h, away)))

  pub lookup_and_pin-IsValid :
      (c : Cache) (key : ℕ) → IsValid hasher c → IsValid hasher (lookup_and_pin hasher c key).1
  unfolding lookup_and_pin
  lookup_and_pin-IsValid c key v = elim (Bool-cases (c.capacity == 0)) [
    | inl on ↦ rw (on) v
    | inr off ↦
        rw (off)
          (pin_found-IsValid c key (find_key c.items key (c.chain (hasher key % c.buckets))) v refl)
  ]

  unpin_active-IsValid :
      (c : Cache) (key value : ℕ) (o : Option ℕ)
      → IsValid hasher c
      → find_entry c.items key value (c.chain (hasher key % c.buckets)) ≡ o
      → IsValid hasher (unpin_active hasher c o)
  unfolding unpin_active
  unpin_active-IsValid c key value none v e = v
  unpin_active-IsValid c key value (some a) v e =
      let found = find_entry-some c.items key value a (c.chain (hasher key % c.buckets)) e in
      let away = not_evicted c a (hasher key % c.buckets) v found in
      repinned-IsValid c a (neg (pos 1)) v (λ h. absurd (ground (arith, h, away)))

  -- An evicted item that is no longer pinned is deleted.
  deleted-IsValid :
      (c : Cache) (a : ℕ)
      → IsValid hasher c
      → has a c.evicted ≡ true
      → IsValid hasher (record c {
        items = repinned c.items a (neg (pos 1));
        evicted = remove a c.evicted;
        allocated = c.allocated - 1;
      })
  deleted-IsValid c a v here = record {
    size_right = v.size_right;
    allocated_right = ground (arith, v.allocated_right, length-remove a c.evicted here);
    queue_distinct = v.queue_distinct;
    evicted_distinct = distinct-remove a c.evicted v.evicted_distinct;
    apart = λ x. ground (arith, v.apart x, has-remove a x c.evicted v.evicted_distinct);
    in_use = λ x h. v.in_use x (ground (arith, h, has-remove a x c.evicted v.evicted_distinct));
    chained = λ x y.
        v.chained x y
        ∙ ap (λ k. has x c.queue && y == hasher k % c.buckets)
            (sym (repinned-key c.items a x (neg (pos 1))));
    chains_distinct = v.chains_distinct;
    keys_differ = λ x y hx hy e.
        v.keys_differ x y hx hy (
          sym (repinned-key c.items a x (neg (pos 1)))
          ∙ e
          ∙ repinned-key c.items a y (neg (pos 1)));
    pinned = λ x h.
        let kept = has-remove a x c.evicted v.evicted_distinct in
        rw (repinned-other c.items a x (neg (pos 1)) (ground (arith, h, kept)))
          (v.pinned x (ground (arith, h, kept)));
  }

  unpin_evicted-IsValid :
      (c active : Cache) (key value : ℕ) (o : Option ℕ)
      → IsValid hasher c
      → IsValid hasher active
      → find_entry c.items key value c.evicted ≡ o
      → IsValid hasher (unpin_evicted hasher c active o)
  unfolding unpin_evicted
  unpin_evicted-IsValid c active key value none v w e = w
  unpin_evicted-IsValid c active key value (some a) v w e =
      let here = find_entry-some c.items key value a c.evicted e in
      let itself : (repinned c.items a (neg (pos 1)) a).pins ≡ ((c.items a).pins +ℤ neg (pos 1)) =
        repinned-itself c.items a (neg (pos 1)) in
      elim (Bool-cases (eq_ℤ (repinned c.items a (neg (pos 1)) a).pins (pos 0))) [
        | inl on ↦ rw (on) (deleted-IsValid c a v here)
        | inr off ↦ rw (off) (
            repinned-IsValid c a (neg (pos 1)) v (λ _. ap (λ p. eq_ℤ p (pos 0)) (sym itself) ∙ off))
      ]

  pub unpin-IsValid :
      (c : Cache) (key value : ℕ) → IsValid hasher c → IsValid hasher (unpin hasher c key value)
  unfolding unpin
  unpin-IsValid c key value v =
      let active =
        unpin_active-IsValid c key value
          (find_entry c.items key value (c.chain (hasher key % c.buckets))) v refl in
      unpin_evicted-IsValid c _ key value (find_entry c.items key value c.evicted) v active refl
