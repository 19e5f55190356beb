-- ===== src/Utils/Cache.antt =====
-- LruCache of src/utils/cache.h, without its lock: the items are numbered by their addresses, and a
-- linked list of items is the list of their addresses.
pub mod Addresses
pub mod Valid
pub mod Insert
pub mod Pins
pub mod Reached
pub mod Lookup
pub mod Alive
pub mod Contents
pub mod Unlock
pub mod Kept
use fat_fritz.Common.{
  ℕ, zero, suc, ◌+◌, ◌-◌, ◌%◌, Bool, true, false, not, ◌&&◌, ◌||◌, ◌==◌, ltb, leb, if◌then◌else◌,
  List, [], ◌∷◌, Option, none, some, length,
}
use fat_fritz.Common.Int.{ℤ, pos, neg, ◌+ℤ◌, ◌-ℤ◌, eq_ℤ}
use fat_fritz.Common.Bools.{is_some}
use fat_fritz.Utils.Cache.Addresses.{has, remove, last, is_empty}

-- An item, with the address of its value.
pub record Item : Type 0 where
  pub key : ℕ
  pub value : ℕ
  pub pins : ℤ

-- The state. `queue` runs from `lru_head_` to `lru_tail_`, `chain` gives the list of each of the
-- `buckets` places of the table, `items` is the memory, and `fresh` the next address of `new`.
pub record Cache : Type 0 where
  pub capacity : ℕ
  pub size : ℕ
  pub allocated : ℕ
  pub queue : List ℕ
  pub evicted : List ℕ
  pub buckets : ℕ
  pub chain : ℕ → List ℕ
  pub items : ℕ → Item
  pub fresh : ℕ

-- A function changed at one argument.
abbrev pub update : {A : Type 0} → (ℕ → A) → ℕ → A → ℕ → A
update f a v x = if x == a then v else f x

-- The first item of a chain with the key.
unfoldable pub find_key : (ℕ → Item) → ℕ → List ℕ → Option ℕ
find_key items key [] = none
find_key items key (a ∷ later) =
    let rest = find_key items key later in if key == (items a).key then some a else rest

-- The first item of a chain with the key and the value.
unfoldable pub find_entry : (ℕ → Item) → ℕ → ℕ → List ℕ → Option ℕ
find_entry items key value [] = none
find_entry items key value (a ∷ later) =
    let rest = find_entry items key value later in
    if key == (items a).key && value == (items a).value then some a else rest

-- The pins of an item changed by an amount.
abbrev pub repinned : (ℕ → Item) → ℕ → ℤ → ℕ → Item
repinned items a amount = update items a (record (items a) { pins = (items a).pins +ℤ amount })

-- InsertIntoLru(iter).
unfoldable pub insert_into_lru : Cache → ℕ → Cache
insert_into_lru c a = record c { queue = a ∷ c.queue }

-- BringToFront(iter), which nothing calls.
unfoldable pub bring_to_front : Cache → ℕ → Cache
bring_to_front c a = record c { queue = a ∷ remove a c.queue }

-- With the hash function of the keys.
module _ (hasher : ℕ → ℕ) where
  abbrev pub bucket : Cache → ℕ → ℕ
  bucket c key = hasher key % c.buckets

  -- EvictItem(iter): an item that its chain lacks is only taken off the queue.
  unfoldable pub evict_item : Cache → ℕ → Cache
  evict_item c a =
      let b = bucket c (c.items a).key in
      let found = has a (c.chain b) in
      let unused = eq_ℤ (c.items a).pins (pos 0) in
      record c {
        size = c.size - 1;
        queue = remove a c.queue;
        chain = update c.chain b (remove a (c.chain b));
        allocated = if found && unused then c.allocated - 1 else c.allocated;
        evicted = if found && not unused then a ∷ c.evicted else c.evicted;
      }

  -- The loop of ShrinkToCapacity(capacity).
  unfoldable pub shrink_loop : ℕ → Cache → ℕ → Cache
  shrink_loop zero c capacity = c
  shrink_loop (suc fuel) c capacity =
      let rest = shrink_loop fuel (evict_item c (last c.queue 0)) capacity in
      if not (is_empty c.queue) && ltb capacity c.size then rest else c

  -- ShrinkToCapacity(capacity).
  unfoldable pub shrink_to_capacity : Cache → ℕ → Cache
  shrink_to_capacity c capacity = shrink_loop (length c.queue) c capacity

  -- The search of Insert(key, val): an item that it finds is evicted.
  unfoldable pub evict_found : Cache → Option ℕ → Cache
  evict_found c none = c
  evict_found c (some a) = evict_item c a

  unfoldable pub evict_key : Cache → ℕ → Cache
  evict_key c key = evict_found c (find_key c.items key (c.chain (bucket c key)))

  -- A new item for the key at the head of its chain and of the queue.
  unfoldable pub add_item : Cache → ℕ → ℕ → Cache
  add_item c key value =
      let b = bucket c key in
      insert_into_lru
        (record c {
          size = c.size + 1;
          allocated = c.allocated + 1;
          items = update c.items c.fresh (record { key = key; value = value; pins = pos 0 });
          chain = update c.chain b (c.fresh ∷ c.chain b);
          fresh = c.fresh + 1;
        })
        c.fresh

  -- Insert(key, val).
  unfoldable pub insert : Cache → ℕ → ℕ → Cache
  insert c key value =
      if c.capacity == 0
      then c
      else add_item (shrink_to_capacity (evict_key c key) (c.capacity - 1)) key value

  -- ContainsKey(key).
  unfoldable pub contains_key : Cache → ℕ → Bool
  contains_key c key =
      if c.capacity == 0 then false else is_some (find_key c.items key (c.chain (bucket c key)))

  -- LookupAndPin(key): the address of the value, `none` for a null pointer.
  unfoldable pub pin_found : Cache → Option ℕ → Option ℕ × Cache
  pin_found c none = (none, c)
  pin_found c (some a) = (some (c.items a).value, record c { items = repinned c.items a (pos 1) })

  unfoldable pub lookup_and_pin : Cache → ℕ → Option ℕ × Cache
  lookup_and_pin c key =
      if c.capacity == 0
      then (none, c)
      else pin_found c (find_key c.items key (c.chain (bucket c key)))

  -- The second half of Unpin, for an item that is not evicted.
  unfoldable pub unpin_active : Cache → Option ℕ → Cache
  unpin_active c none = c
  unpin_active c (some a) = record c { items = repinned c.items a (neg (pos 1)) }

  -- The first half: an evicted item that was pinned once is deleted.
  unfoldable pub unpin_evicted : Cache → Cache → Option ℕ → Cache
  unpin_evicted c active none = active
  unpin_evicted c active (some a) =
      let items = repinned c.items a (neg (pos 1)) in
      if eq_ℤ (items a).pins (pos 0)
      then record c { items = items; evicted = remove a c.evicted; allocated = c.allocated - 1 }
      else record c { items = items }

  -- Unpin(key, value).
  unfoldable pub unpin : Cache → ℕ → ℕ → Cache
  unpin c key value =
      let active = unpin_active c (find_entry c.items key value (c.chain (bucket c key))) in
      unpin_evicted c active (find_entry c.items key value c.evicted)

  -- The destructor of LruCacheLock, which LookupAndPin constructs.
  unfoldable pub unlock : Cache → ℕ → Option ℕ → Cache
  unlock c key none = c
  unlock c key (some value) = unpin c key value

  -- The loop of SetCapacity over the places of the old table, for `left` places from `b` on. It moves
  -- the first item of each chain and drops the others. A first item that meets one in its new place is
  -- linked to itself, so that a walk of that chain does not end: `none`.
  unfoldable pub rehash : (ℕ → Item) → ℕ → (ℕ → List ℕ) → ℕ → ℕ → (ℕ → List ℕ) → Option (ℕ → List ℕ)
  rehash items new_buckets old b zero new = some new
  rehash items new_buckets old b (suc left) new =
      let skipped = rehash items new_buckets old (b + 1) left new in
      elim (old b) [
        | [] ↦ skipped
        | a ∷ _ ↦
            let place = hasher (items a).key % new_buckets in
            elim (new place) [
              | [] ↦ rehash items new_buckets old (b + 1) left (update new place (a ∷ []))
              | _ ∷ _ ↦ none
            ]
      ]

  -- Clear().
  unfoldable pub clear : Cache → Cache
  clear c = shrink_to_capacity c 0

-- With the size of the table for a capacity, which the source finds in floating point.
module _ (hasher : ℕ → ℕ) (table_size : ℕ → ℕ) where
  -- LruCache(capacity), with memory that holds no item yet.
  unfoldable pub empty_cache : ℕ → (ℕ → Item) → Cache
  empty_cache capacity items = record {
    capacity = capacity;
    size = 0;
    allocated = 0;
    queue = [];
    evicted = [];
    buckets = table_size capacity;
    chain = λ _. [];
    items = items;
    fresh = 0;
  }

  -- SetCapacity(capacity).
  unfoldable pub set_capacity : Cache → ℕ → Option Cache
  set_capacity c capacity =
      let small = shrink_to_capacity hasher c capacity in
      let new_buckets = table_size capacity in
      let no_items : ℕ → List ℕ = λ _. [] in
      if c.capacity == capacity
      then some c
      else if small.size == 0
      then some (record small { capacity = capacity; buckets = new_buckets; chain = no_items })
      else elim (rehash hasher small.items new_buckets small.chain 0 small.buckets no_items) [
        | none ↦ none
        | some new ↦ some (record small { capacity = capacity; buckets = new_buckets; chain = new })
      ]
