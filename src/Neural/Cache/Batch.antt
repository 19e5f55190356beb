-- ===== src/Neural/Cache/Batch.antt =====
-- The operations of a batch of requests.
use fat_fritz.Common.{
  ℕ, suc, ◌%◌, ◌==◌, true, if◌then◌else◌, List, [], ◌∷◌, ◌++◌, Option, none, some, length,
  length-append, ◌≡◌, refl, ap, ◌∙◌, arith, Bool-cases, inl, inr,
}
use fat_fritz.Common.Bools.{is_some}
use fat_fritz.Utils.Cache.{Cache, find_key, pin_found, lookup_and_pin, contains_key, unlock}
use fat_fritz.Utils.Cache.Valid.{IsValid}
use fat_fritz.Utils.Cache.Unlock.{ValuesDiffer, unlock-lookup_and_pin}
use fat_fritz.Neural.Cache.{
  Network, Computation, get_cache_misses, get_batch_size, hit, add_input_by_hash, add_missed,
  add_input, pop_back, popped, pop_cache_hit,
}

pin_found-contains :
    (hasher : ℕ → ℕ) (c : Cache) (o : Option ℕ) → is_some (pin_found hasher c o).0 ≡ is_some o
unfolding pin_found
pin_found-contains hasher c none = refl
pin_found-contains hasher c (some a) = refl

pub lookup_and_pin-contains_key :
    (hasher : ℕ → ℕ) (c : Cache) (key : ℕ)
    → is_some (lookup_and_pin hasher c key).0 ≡ contains_key hasher c key
unfolding lookup_and_pin contains_key
lookup_and_pin-contains_key hasher c key = elim (Bool-cases (c.capacity == 0)) [
  | inl on ↦ rw (on) refl
  | inr off ↦
      rw (off)
        (pin_found-contains hasher c (find_key c.items key (c.chain (hasher key % c.buckets))))
]

module _ {Input V : Type 0} (network : Network Input V) (hasher : ℕ → ℕ) where
  sizes_after :
      (c : Computation Input V) (hash : ℕ) (input : Input) (probabilities : List ℕ) (o : Option ℕ)
      → (length
            (add_missed network hasher hash input probabilities (hit network hasher c hash o)).batch
          ≡ suc (length c.batch))
        × (length
              (add_missed network hasher hash input probabilities
                (hit network hasher c hash o)).parent
            ≡ (if is_some o then length c.parent else suc (length c.parent)))
  unfolding hit add_missed
  sizes_after c hash input probabilities none =
      (omega (arith, length-append c.batch _), omega (arith, length-append c.parent _))
  sizes_after c hash input probabilities (some value) =
      (omega (arith, length-append c.batch _), refl)

  -- AddInput makes the batch one longer, and sends one more input to the network exactly when
  -- ContainsKey does not find the hash in the cache.
  pub sizes-add_input :
      (c : Computation Input V) (hash : ℕ) (input : Input) (probabilities : List ℕ)
      → (get_batch_size network hasher (add_input network hasher c hash input probabilities)
          ≡ suc (get_batch_size network hasher c))
        × (get_cache_misses network hasher (add_input network hasher c hash input probabilities) ≡ (
            if contains_key hasher c.cache hash
            then get_cache_misses network hasher c
            else suc (get_cache_misses network hasher c)))
  unfolding add_input add_input_by_hash
  sizes-add_input c hash input probabilities =
      let found = lookup_and_pin hasher c.cache hash in
      let (batch, misses) =
        sizes_after (record c { cache = found.1 }) hash input probabilities found.0 in
      (
        batch,
        misses
            ∙ ap (λ there. if there then length c.parent else suc (length c.parent))
                (lookup_and_pin-contains_key hasher c.cache hash),
      )

pop_back-append : {A : Type 0} (xs : List A) (x : A) → pop_back (xs ++ x ∷ []) ≡ some (xs, x)
unfolding pop_back
pop_back-append [] x = refl
pop_back-append (y ∷ xs) x = rw (pop_back-append xs x) refl

module _ {Input V : Type 0} (network : Network Input V) (hasher : ℕ → ℕ) where
  popped-hit :
      (c : Computation Input V) (cache : Cache) (hash : ℕ) (o : Option ℕ)
      → (hit network hasher (record c { cache = cache }) hash o).0 ≡ true
      → ((value : ℕ) → o ≡ some value → unlock hasher cache hash (some value) ≡ c.cache)
      → pop_cache_hit network hasher (hit network hasher (record c { cache = cache }) hash o).1
        ≡ some c
  unfolding hit pop_cache_hit popped
  popped-hit c cache hash none on back = absurd (ground (arith, on))
  popped-hit c cache hash (some value) on back =
      rw (pop_back-append c.batch _)
        (ap (λ (restored : Cache). some (record c { cache = restored })) (back value refl))

  -- On a valid cache no two items of which hold the same value, taking back an input that
  -- AddInputByHash found in the cache is defined, and gives back the computation as it was: the
  -- batch, the inputs and the whole cache with the pins of each item.
  pub pop_cache_hit-add_input_by_hash :
      (c : Computation Input V) (hash : ℕ)
      → IsValid hasher c.cache
      → ValuesDiffer c.cache
      → (add_input_by_hash network hasher c hash).0 ≡ true
      → pop_cache_hit network hasher (add_input_by_hash network hasher c hash).1 ≡ some c
  unfolding add_input_by_hash
  pop_cache_hit-add_input_by_hash c hash v differ on =
      let found = lookup_and_pin hasher c.cache hash in
      popped-hit c found.1 hash found.0 on
        (λ value e. unlock-lookup_and_pin hasher c.cache hash value v differ e)
