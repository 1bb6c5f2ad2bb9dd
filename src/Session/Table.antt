-- ===== src/Session/Table.antt =====
-- When a bucket of hash.c and the pool of sessions are sound.
use freepacket.Base.{
  ℕ, ◌+◌, ◌-◌, ◌^◌, ◌≤◌, ◌<◌, ◌≡◌, refl, [], ◌∷◌, ◌++◌, some, length as arr_length, All, All-append,
}
use freepacket.Queue.{Queue, capacity, enqueue, dequeue}
use freepacket.Queue.Single.{
  IsValid, contents, stored, dropped, enqueue_room, dequeue_more, stored-Holds, dropped-Holds,
}
use freepacket.Session.{Blist, Bucket, null_blist}
use freepacket.Session.Distinct.{Distinct}

module _ (limit : ℕ) where
  -- The buffer behind the node has the configured size.
  abbrev pub IsSized : Blist → Type 0
  IsSized node = arr_length node.item.buffer ≡ limit

  -- A session in use.
  pub record IsSession (node : Blist) : Type 0 where
    pub sized : IsSized node
    pub limited : node.item.length ≡ limit
    pub filled : node.item.cur_len ≤ limit

  pub record BucketOk (bucket : Bucket) : Type 0 where
    pub sessions : All IsSession bucket.list
    pub distinct : Distinct bucket.list
    pub counted : bucket.count ≡ arr_length bucket.list

  pub record PoolOk (pool : Queue Blist) : Type 0 where
    pub valid : IsValid pool
    pub nodes : All IsSized (contents null_blist pool)

  -- A node can be taken from a pool that has one, and its buffer has the configured size.
  pub take_node :
      (pool : Queue Blist)
      → PoolOk pool
      → pool.dequeue_count < pool.enqueue_count
      → (node : Blist) × (pool' : Queue Blist) × (dequeue null_blist pool ≡ some (node, pool'))
        × IsSized node
        × PoolOk pool'
        × (capacity pool' ≡ capacity pool)
        × (pool'.dequeue_count ≡ pool.dequeue_count + 1)
        × (pool'.enqueue_count ≡ pool.enqueue_count)
        × (contents null_blist pool ≡ node ∷ contents null_blist pool')
  unfolding dropped
  take_node pool p more =
      let (front, valid) = dropped-Holds null_blist p.valid more in
      let (first, rest) = (rw front at p.nodes) in
      (
        _,
        dropped pool,
        dequeue_more null_blist p.valid more,
        first,
        record { valid = valid; nodes = rest },
        refl,
        refl,
        refl,
        front,
      )

  -- A node can be given back to a pool that is not full.
  pub give_back :
      (pool : Queue Blist) (node : Blist)
      → PoolOk pool
      → IsSized node
      → pool.enqueue_count - pool.dequeue_count < capacity pool
      → pool.enqueue_count + 1 < 2 ^ 64
      → (pool' : Queue Blist) × (enqueue pool node ≡ some pool')
        × PoolOk pool'
        × (capacity pool' ≡ capacity pool)
        × (pool'.dequeue_count ≡ pool.dequeue_count)
        × (pool'.enqueue_count ≡ pool.enqueue_count + 1)
        × (contents null_blist pool' ≡ contents null_blist pool ++ node ∷ [])
  unfolding stored
  give_back pool node p sized room fits =
      let h = stored-Holds null_blist p.valid node room fits in
      (
        stored pool node,
        enqueue_room null_blist p.valid node room fits,
        record {
          valid = h.valid;
          nodes =
              rw h.holds
                (All-append IsSized (contents null_blist pool) (node ∷ []) p.nodes (sized, tt));
        },
        refl,
        refl,
        refl,
        h.holds,
      )
