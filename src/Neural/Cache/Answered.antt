-- ===== src/Neural/Cache/Answered.antt =====
-- What a network answered for an input is found in the cache by the next request.
use fat_fritz.Common.{ℕ, Bool, true, List, [], Option, none, some, ◌≡◌, ◌≢◌}
use fat_fritz.Utils.Cache.{Cache, lookup_and_pin}
use fat_fritz.Utils.Cache.Valid.{IsValid}
use fat_fritz.Neural.Cache.{
  Request, Network, WorkItem, Computation, get_q_val, get_d_val, get_m_val,
}

module _ {Input V : Type 0} (network : Network Input V) (hasher : ℕ → ℕ) where
  -- Room for an item, in a valid cache, and the inputs.
  record IsReady (parent : List Input) (c : Computation Input V) : Type 0 where
    pub valid : IsValid hasher c.cache
    pub room : c.cache.capacity ≢ 0
    pub inputs : c.parent ≡ parent

  -- The hash was found, and the three values of a sample are those of a request.
  pub record IsHit (result : Bool × Computation Input V) (sample : ℕ) (r : Request V) : Type 0 where
    pub is_found : result.0 ≡ true
    pub q_value : get_q_val network hasher result.1 sample ≡ some r.q
    pub d_value : get_d_val network hasher result.1 sample ≡ some r.d
    pub m_value : get_m_val network hasher result.1 sample ≡ some r.m

  -- A request for the hash finds this answer.
  record Answers (c : Computation Input V) (hash : ℕ) (r : Request V) : Type 0 where
    pub address : ℕ
    pub found : (lookup_and_pin hasher c.cache hash).0 ≡ some address
    pub stored : c.requests address ≡ r

  -- The item of a hit.
  abbrev hit_item : ℕ → ℕ → WorkItem
  hit_item hash address = record {
    hash = hash;
    lock = some address;
    idx_in_parent = none;
    probabilities_to_cache = [];
    last_idx = 0;
  }
