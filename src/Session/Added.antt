-- ===== src/Session/Added.antt =====
-- What `hash_add_item` does to one bucket, as a change of the bytes collected for the flows.
use freepacket.Base.{
  ℕ, ◌+◌, ◌-◌, ◌^◌, ◌≤◌, ◌<◌, ◌≡◌, List, ◌++◌, Option, none, some, true, false,
  length as arr_length, Bool-cases, inl, inr, ltb, if◌then◌else◌,
}
use mathlib.Core.List.{Perm}
use freepacket.Queue.{Queue, capacity}
use freepacket.Parser.{FlowItem}
use freepacket.Parser.Direction.{SameKey}
use freepacket.Session.{Blist, SessionItem, Bucket, BucketState, matches, payload_of}
use freepacket.Session.Keys.{matches-HasKey, HasKey-SameKey, stream}
use freepacket.Session.Table.{BucketOk, PoolOk}
use freepacket.Session.Places.{places, pooled}

-- What a packet makes of the bytes collected for its flow: it starts a session, adds to it, or
-- ends it when the buffer would be full.
unfoldable pub add_bytes : ℕ → Option (List ℕ) → List ℕ → Option (List ℕ)
add_bytes limit none bytes = some bytes
add_bytes limit (some old) bytes =
    if ltb (arr_length old + arr_length bytes) limit then some (old ++ bytes) else none

-- What the branches of `hash_add_item` rely on: a sound bucket and a sound pool that has room for
-- the nodes of the bucket, and a payload inside its packet that fits a buffer.
pub record CanAdd (limit : ℕ) (flow : FlowItem) (bucket : Bucket) (pool : Queue Blist)
    : Type 0 where
  pub bucket_ok : BucketOk limit bucket
  pub pool_ok : PoolOk limit pool
  pub room : pool.enqueue_count - pool.dequeue_count + arr_length bucket.list ≤ capacity pool
  pub counter : pool.enqueue_count + 1 < 2 ^ 64
  pub few : arr_length bucket.list + 1 < 2 ^ 32
  pub inside : arr_length (payload_of flow) ≡ flow.payload_len
  pub fits : flow.payload_len ≤ limit

-- The pool and the list have the nodes that the two had before, in some order.
pub record IsBalanced (bucket : Bucket) (pool : Queue Blist) (state : BucketState) : Type 0 where
  pub balance :
      state.1.enqueue_count - state.1.dequeue_count + arr_length (state.0).list
      ≡ pool.enqueue_count - pool.dequeue_count + arr_length bucket.list
  pub same : Perm (pooled pool ++ places bucket.list) (pooled state.1 ++ places (state.0).list)
  pub same_capacity : capacity state.1 ≡ capacity pool
  pub counter : state.1.enqueue_count ≤ pool.enqueue_count + 1

-- The bucket and the pool are sound, the flow has the bytes of `add_bytes`, and every other flow
-- has those it had.
pub record IsAdded (limit : ℕ) (flow : FlowItem) (bucket : Bucket) (state : BucketState)
    : Type 0 where
  pub bucket_ok : BucketOk limit state.0
  pub pool_ok : PoolOk limit state.1
  pub own : stream (state.0).list flow ≡ add_bytes limit (stream bucket.list flow) (payload_of flow)
  pub others :
      (other : FlowItem)
      → ¬ SameKey flow other
      → stream (state.0).list other ≡ stream bucket.list other

-- A session of one flow does not match another.
pub other_flow :
    (item : SessionItem) (flow other : FlowItem)
    → matches item flow ≡ true
    → ¬ SameKey flow other
    → matches item other ≡ false
other_flow item flow other own apart = elim (Bool-cases (matches item other)) [
  | inl both ↦
      absurd
        (apart (HasKey-SameKey (matches-HasKey item flow own) (matches-HasKey item other both)))
  | inr miss ↦ miss
]
