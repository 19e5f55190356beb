-- ===== src/Neural/Cache.antt =====
-- CachingComputation of src/neural/cache.h and src/neural/cache.cc: requests to a network, with the
-- cache of its answers.
pub mod Moves
pub mod Batch
pub mod Answered
use fat_fritz.Common.{
  ℕ, zero, suc, ◌+◌, ◌==◌, Bool, true, false, if◌then◌else◌, List, [], ◌∷◌, ◌++◌, map, Option, none,
  some, length, get_or,
}
use fat_fritz.Utils.Cache
use fat_fritz.Utils.Cache.{Cache, update, lookup_and_pin, unlock}

-- CachedNNRequest: the answers for one input; `p` has the moves that were asked for, each with its
-- probability.
pub record Request (V : Type 0) : Type 0 where
  pub q : V
  pub d : V
  pub m : V
  pub p : List (ℕ × V)

-- NetworkComputation after ComputeBlocking: the answers for the samples of a batch of inputs.
pub record Network (Input V : Type 0) : Type 0 where
  pub q_val : List Input → ℕ → V
  pub d_val : List Input → ℕ → V
  pub m_val : List Input → ℕ → V
  pub p_val : List Input → ℕ → ℕ → V
  pub zero_val : V

-- WorkItem: `lock` is the address of the request in the cache, and `idx_in_parent` is `none` for -1.
pub record WorkItem : Type 0 where
  pub hash : ℕ
  pub lock : Option ℕ
  pub idx_in_parent : Option ℕ
  pub probabilities_to_cache : List ℕ
  pub last_idx : ℕ

-- The state, with the cache that it shares, the memory of the requests and the next address of `new`.
pub record Computation (Input V : Type 0) : Type 0 where
  pub cache : Cache
  pub requests : ℕ → Request V
  pub fresh : ℕ
  pub parent : List Input
  pub batch : List WorkItem

-- The list without its last entry, and that entry.
unfoldable pub pop_back : {A : Type 0} → List A → Option (List A × A)
pop_back [] = none
pop_back (x ∷ xs) = elim (pop_back xs) [
  | none ↦ some ([], x)
  | some rest ↦ some (x ∷ rest.0, rest.1)
]

-- The list with another entry at an index.
unfoldable pub replaced_at : {A : Type 0} → List A → ℕ → A → List A
replaced_at [] i y = []
replaced_at (x ∷ xs) zero y = y ∷ xs
replaced_at (x ∷ xs) (suc i) y = x ∷ replaced_at xs i y

module _ {Input V : Type 0} (network : Network Input V) where
  -- The request that ComputeBlocking makes for an item.
  unfoldable pub answer : List Input → ℕ → List ℕ → Request V
  answer parent idx probabilities = record {
    q = network.q_val parent idx;
    d = network.d_val parent idx;
    m = network.m_val parent idx;
    p = map (λ move. (move, network.p_val parent idx move)) probabilities;
  }

  -- The loop of GetPVal over the moves of a request, for `left` rounds from `last_idx` on: the value
  -- and the index where the next search starts.
  unfoldable pub find_move : List (ℕ × V) → ℕ → ℕ → ℕ → V × ℕ
  find_move moves move_id zero last_idx = (network.zero_val, last_idx)
  find_move moves move_id (suc left) last_idx =
      let move = get_or moves last_idx (0, network.zero_val) in
      let next = if last_idx + 1 == length moves then 0 else last_idx + 1 in
      let rest = find_move moves move_id left next in
      if move.0 == move_id then (move.1, next) else rest

module _ {Input V : Type 0} (network : Network Input V) (hasher : ℕ → ℕ) where
  -- GetCacheMisses() and GetBatchSize().
  abbrev pub get_cache_misses : Computation Input V → ℕ
  get_cache_misses c = length c.parent

  abbrev pub get_batch_size : Computation Input V → ℕ
  get_batch_size c = length c.batch

  -- AddInputByHash(hash).
  unfoldable pub hit : Computation Input V → ℕ → Option ℕ → Bool × Computation Input V
  hit c hash none = (false, c)
  hit c hash (some value) = (
    true,
    record c {
      batch =
          c.batch
          ++ record {
            hash = hash;
            lock = some value;
            idx_in_parent = none;
            probabilities_to_cache = [];
            last_idx = 0;
          }
            ∷ [];
    },
  )

  unfoldable pub add_input_by_hash : Computation Input V → ℕ → Bool × Computation Input V
  add_input_by_hash c hash =
      let (value, cache) = lookup_and_pin hasher c.cache hash in
      hit (record c { cache = cache }) hash value

  -- AddInput(hash, input, probabilities_to_cache), after its call of AddInputByHash.
  unfoldable pub add_missed : ℕ → Input → List ℕ → Bool × Computation Input V → Computation Input V
  add_missed hash input probabilities (true, c) = c
  add_missed hash input probabilities (false, c) = record c {
    batch =
        c.batch
        ++ record {
          hash = hash;
          lock = none;
          idx_in_parent = some (length c.parent);
          probabilities_to_cache = probabilities;
          last_idx = 0;
        }
          ∷ [];
    parent = c.parent ++ input ∷ [];
  }

  unfoldable pub add_input : Computation Input V → ℕ → Input → List ℕ → Computation Input V
  add_input c hash input probabilities =
      add_missed hash input probabilities (add_input_by_hash c hash)

  -- PopCacheHit() and PopLastInputHit(): the last item goes, and its lock with it. Their assertions
  -- have no effect in a release build, and popping an empty vector is undefined: `none`.
  unfoldable pub popped :
      Computation Input V → Option (List WorkItem × WorkItem) → Option (Computation Input V)
  popped c none = none
  popped c (some (batch, item)) =
      some (record c { cache = unlock hasher c.cache item.hash item.lock; batch = batch })

  unfoldable pub pop_cache_hit : Computation Input V → Option (Computation Input V)
  pop_cache_hit c = popped c (pop_back c.batch)

  -- The loop of ComputeBlocking over the batch.
  unfoldable pub fill_item : Computation Input V → WorkItem → Option ℕ → Computation Input V
  fill_item c item none = c
  fill_item c item (some idx) = record c {
    cache = Cache.insert hasher c.cache item.hash c.fresh;
    requests = update c.requests c.fresh (answer network c.parent idx item.probabilities_to_cache);
    fresh = c.fresh + 1;
  }

  unfoldable pub fill_cache : List WorkItem → Computation Input V → Computation Input V
  fill_cache [] c = c
  fill_cache (item ∷ items) c = fill_cache items (fill_item c item item.idx_in_parent)

  -- ComputeBlocking().
  unfoldable pub compute_blocking : Computation Input V → Computation Input V
  compute_blocking c = if length c.parent == 0 then c else fill_cache c.batch c

  abbrev pub no_item : WorkItem
  no_item = record {
    hash = 0;
    lock = none;
    idx_in_parent = none;
    probabilities_to_cache = [];
    last_idx = 0;
  }

  -- The request behind a lock.
  abbrev pub locked : Computation Input V → Option ℕ → Option (Request V)
  locked c none = none
  locked c (some value) = some (c.requests value)

  abbrev pub field : {A : Type 0} → (Request V → A) → Option (Request V) → Option A
  field f none = none
  field f (some r) = some (f r)

  -- GetQVal, GetDVal and GetMVal of a sample: `none` for a null pointer that is followed.
  unfoldable pub item_val :
      (List Input → ℕ → V) → (Request V → V) → Computation Input V → WorkItem → Option V
  item_val from_parent from_request c item = elim item.idx_in_parent [
    | none ↦ field from_request (locked c item.lock)
    | some idx ↦ some (from_parent c.parent idx)
  ]

  unfoldable pub val : (List Input → ℕ → V) → (Request V → V) → Computation Input V → ℕ → Option V
  val from_parent from_request c sample =
      item_val from_parent from_request c (get_or c.batch sample no_item)

  unfoldable pub get_q_val : Computation Input V → ℕ → Option V
  get_q_val = val network.q_val (λ r. r.q)

  unfoldable pub get_d_val : Computation Input V → ℕ → Option V
  get_d_val = val network.d_val (λ r. r.d)

  unfoldable pub get_m_val : Computation Input V → ℕ → Option V
  get_m_val = val network.m_val (λ r. r.m)

  -- GetPVal(sample, move_id), which moves the `last_idx` of a sample that was in the cache.
  unfoldable pub searched : Computation Input V → ℕ → WorkItem → V × ℕ → V × Computation Input V
  searched c sample item found = (
    found.0,
    record c { batch = replaced_at c.batch sample (record item { last_idx = found.1 }) },
  )

  unfoldable pub get_p_val : Computation Input V → ℕ → ℕ → Option (V × Computation Input V)
  get_p_val c sample move_id =
      let item = get_or c.batch sample no_item in
      elim item.idx_in_parent [
        | none ↦
            field
              (λ r.
                searched c sample item (find_move network r.p move_id (length r.p) item.last_idx))
              (locked c item.lock)
        | some idx ↦ some (network.p_val c.parent idx move_id, c)
      ]
