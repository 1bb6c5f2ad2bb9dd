-- ===== src/Session/Add.antt =====
-- `hash_add_item` on one bucket.
use freepacket.Base.{
  Outcome, returns, spins, ℕ, ◌^◌, ◌<◌, ◌≡◌, ◌⊎◌, inl, inr, List, Option, none, some, Bool-cases,
  ltb, ltb→lt, ltb→le, arith,
}
use freepacket.Config.{SimConfig}
use freepacket.Queue.{Queue}
use freepacket.Queue.Batch.{dequeue_same}
use freepacket.Parser.{FlowItem}
use freepacket.Session.{
  Blist, Bucket, BucketState, null_blist, find_list, add_session, extend_session, add_to_bucket,
}
use freepacket.Session.Find.{Found, find_list-Found}
use freepacket.Session.Added.{CanAdd, IsAdded, IsBalanced}
use freepacket.Session.Starts.{add_session-IsAdded}
use freepacket.Session.Extends.{extend_session-IsAdded}

module _ (limit : ℕ) (small : limit < 2 ^ 31) (config : SimConfig) (now : ℕ) (flow : FlowItem) where
  -- Without a session of the flow and without a free node.
  add_session_waits :
      (bucket : Bucket) (pool : Queue Blist)
      → pool.enqueue_count ≡ pool.dequeue_count
      → add_session config now flow (bucket, pool) ≡ spins
  unfolding add_session
  add_session_waits bucket pool empty = rw (add_session, dequeue_same null_blist pool empty)

  -- On one bucket: the payload is added, or the manager waits for a node to come back.
  pub add_to_bucket_cases :
      (bucket : Bucket) (pool : Queue Blist)
      → config.manager_buffer_size ≡ limit
      → CanAdd limit flow bucket pool
      → ((state : BucketState) × (add_to_bucket config now flow (bucket, pool) ≡ returns state)
          × IsAdded limit flow bucket state
          × IsBalanced bucket pool state)
        ⊎ ((add_to_bucket config now flow (bucket, pool) ≡ spins)
            × (pool.enqueue_count ≡ pool.dequeue_count))
  unfolding add_to_bucket
  add_to_bucket_cases bucket pool size c =
      go (find_list bucket.list flow) (find_list-Found bucket.list flow)
    where
      go :
          (found : Option (List Blist × Blist × List Blist))
          → Found flow bucket.list found
          → let added : Outcome BucketState = elim found [
            | none ↦ add_session config now flow (bucket, pool)
            | some (before, node, after) ↦ extend_session now flow before node after (bucket, pool)
          ] in
            ((state : BucketState) × (added ≡ returns state)
              × IsAdded limit flow bucket state
              × IsBalanced bucket pool state)
            ⊎ ((added ≡ spins) × (pool.enqueue_count ≡ pool.dequeue_count))
      go none miss = elim (Bool-cases (ltb pool.dequeue_count pool.enqueue_count)) [
        | inl some_free ↦ inl (
            add_session-IsAdded limit config now flow bucket pool size c (ltb→lt _ _ some_free)
              miss)
        | inr none_free ↦
            let empty : pool.enqueue_count ≡ pool.dequeue_count =
              omega (arith, ltb→le _ _ none_free, c.pool_ok.valid.ordered) in
            inr (add_session_waits bucket pool empty, empty)
      ]
      go (some (before, node, after)) f =
          inl (extend_session-IsAdded limit small now flow bucket pool before node after c f)
