-- ===== src/Queue/SortedSet/Server.antt =====
-- What the sorted set queue relies on of Redis: the documented behaviour of its commands on a sorted
-- set (internal/throttle/queue/impl/redis_queue/sorted_set_queue.go).
use goqueuesim.Common.{
  ℕ, suc, String, ◌≡◌, false, Option, none, some, [], ◌∷◌, ◌++◌, All, if◌then◌else◌, ℤ, pos, negsuc,
  length,
}
use goqueuesim.Common.Map.{Map, string_key, ◌==◌, lookup, delete}
use goqueuesim.Common.Float.{Float64}
use goqueuesim.Queue.SortedSet.{replied, failed, SortedSets}

-- The position of a member in a list of members and scores.
unfoldable pub index_of {ℓ} : {A : Type ℓ} → String → Map String A → Option ℕ
index_of m [] = none
index_of m ((k, s) ∷ es) =
    if k == m then some 0 else elim (index_of m es) [ none ↦ none | some n ↦ some (suc n) ]

module _ (fl : Float64) where
  open fl use {Carrier, lt}

  -- From low to high scores.
  abbrev pub IsSorted : Map String Carrier → Type 0
  IsSorted [] = Unit
  IsSorted (e ∷ es) = All (λ d. lt d.1 e.1 ≡ false) es × IsSorted es

  -- A member is put between those with a score that is not higher and those with a score that is not
  -- lower.
  pub record Placed (m : String) (s : Carrier) (es es' : Map String Carrier) : Type 0 where
    pub before : Map String Carrier
    pub after : Map String Carrier
    pub split : es ≡ before ++ after
    pub placed : es' ≡ before ++ (m, s) ∷ after
    pub below : All (λ e. lt s e.1 ≡ false) before
    pub above : All (λ e. lt e.1 s ≡ false) after

  -- `z_range key` lists the sorted set that is stored at a key, in order: ZRANGE key 0 -1 WITHSCORES.
  pub record RedisLaws {R : Type 0} (server : SortedSets fl R) : Type 0 where
    pub z_range : String → R → Map String Carrier
    -- ZADD NX only adds new members.
    pub added :
        (key : String) (s : Carrier) (m : String) (r r' : R)
        → IsSorted (z_range key r)
        → lookup m (z_range key r) ≡ none
        → server.z_add_nx key s m r ≡ replied r'
        → Placed m s (z_range key r) (z_range key r')
    pub present :
        (key : String) (s old : Carrier) (m : String) (r r' : R)
        → lookup m (z_range key r) ≡ some old
        → server.z_add_nx key s m r ≡ replied r'
        → z_range key r' ≡ z_range key r
    pub removed :
        (key m : String) (r r' : R)
        → server.z_rem key m r ≡ replied r'
        → z_range key r' ≡ delete m (z_range key r)
    -- ZRANK counts from 0, and answers nil, which the client reads as an error, without the member.
    pub ranked :
        (key m : String) (r : R) (n : ℕ) (rank : ℤ)
        → index_of m (z_range key r) ≡ some n
        → server.z_rank key m r ≡ replied rank
        → rank ≡ pos n
    pub unranked :
        (key m : String) (r : R)
        → index_of m (z_range key r) ≡ none
        → (err : String) × (server.z_rank key m r ≡ failed err)
    -- ZREMRANGEBYRANK from the first to the last rank
    pub emptied :
        (key : String) (r r' : R)
        → server.z_rem_range_by_rank key (pos 0) (negsuc 0) r ≡ replied r'
        → z_range key r' ≡ []
    pub counted :
        (key : String) (r : R) (n : ℤ)
        → server.z_card key r ≡ replied n
        → n ≡ pos (length (z_range key r))

  -- The server is reachable: no command fails, but for the rank of a member that is missing.
  pub record IsReachable {R : Type 0} (server : SortedSets fl R) (laws : RedisLaws server)
      : Type 0 where
    pub adds :
        (key : String) (s : Carrier) (m : String) (r : R)
        → (r' : R) × (server.z_add_nx key s m r ≡ replied r')
    pub removes : (key m : String) (r : R) → (r' : R) × (server.z_rem key m r ≡ replied r')
    pub empties :
        (key : String) (r : R)
        → (r' : R) × (server.z_rem_range_by_rank key (pos 0) (negsuc 0) r ≡ replied r')
    pub ranks :
        (key m : String) (r : R) (n : ℕ)
        → index_of m (laws.z_range key r) ≡ some n
        → (rank : ℤ) × (server.z_rank key m r ≡ replied rank)
