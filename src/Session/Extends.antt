-- ===== src/Session/Extends.antt =====
-- The branch of `hash_add_item` for a session that is there: it grows, or it ends.
use freepacket.Base.{
  returns, ℕ, ◌+◌, ◌-◌, ◌^◌, ◌<◌, ◌≡◌, refl, sym, ap, ap₂, ◌∙◌, List, ◌∷◌, ◌++◌, some, true, false,
  arith, length as arr_length, length-append, All, All-append, All-split, Bool-cases, inl, inr, ltb,
  le→ltb, ltb→lt, take, length-take, u32, sub32,
}
use freepacket.Base.Places.{same_Perm}
use freepacket.Queue.Single.{contents}
use freepacket.Session.Places.{places, pooled, places-append, ended_same}
use freepacket.Memory.{write}
use freepacket.Memory.Frame.{length-write}
use freepacket.Memory.Append.{take-write}
use freepacket.Queue.{Queue, capacity}
use freepacket.Parser.{FlowItem}
use freepacket.Parser.Direction.{SameKey}
use freepacket.Session.{
  null_blist, Blist, Bucket, BucketState, matches, payload_of, append_payload, extend_session,
}
use freepacket.Session.Find.{Found}
use freepacket.Session.Keys.{
  stream, stream-none, stream-append, stream-hit, stream_other, collected,
}
use freepacket.Session.Distinct.{Distinct-after, Distinct-remove, Distinct-replace}
use freepacket.Session.Table.{IsSession, BucketOk, PoolOk, give_back}
use freepacket.Session.Added.{add_bytes, CanAdd, IsAdded, IsBalanced, other_flow}

module _ (limit : ℕ) (small : limit < 2 ^ 31) (now : ℕ) (flow : FlowItem) where
  -- The session after one more payload.
  abbrev grown : Blist → Blist
  grown node = record node {
    item = record node.item {
      buffer = write node.item.buffer node.item.cur_len (payload_of flow);
      cur_len = u32 (node.item.cur_len + flow.payload_len);
      last_time = now;
    };
  }

  grown-same :
      (node : Blist) (other : FlowItem) → matches (grown node).item other ≡ matches node.item other
  unfolding matches
  grown-same node other = refl

  -- The bytes of the flow, once its session is found.
  stream-Found :
      (bucket : Bucket) (before : List Blist) (node : Blist) (after : List Blist)
      → Found flow bucket.list (some (before, node, after))
      → stream bucket.list flow ≡ some (collected node)
  stream-Found bucket before node after (split, hit, miss) =
      rw split (stream-append before (node ∷ after) flow miss ∙ stream-hit node after flow hit)

  -- The session of the flow is there.
  module _ (bucket : Bucket) (pool : Queue Blist) (before : List Blist) (node : Blist)
      (after : List Blist) (c : CanAdd limit flow bucket pool)
      (found : Found flow bucket.list (some (before, node, after))) where
    sessions_lem : All (IsSession limit) before × All (IsSession limit) (node ∷ after)
    sessions_lem =
        All-split (IsSession limit) before (node ∷ after) (rw found.0 at c.bucket_ok.sessions)

    sum_lem : u32 (node.item.cur_len + flow.payload_len) ≡ node.item.cur_len + flow.payload_len
    sum_lem = omega (arith, (sessions_lem.1.0).filled, c.fits)

    used_lem : arr_length (collected node) ≡ node.item.cur_len
    used_lem = omega (
      arith,
      length-take node.item.cur_len node.item.buffer,
      (sessions_lem.1.0).sized,
      (sessions_lem.1.0).filled,
    )

    -- What the other flows see in place of the bucket's list.
    others_lem :
        (other : FlowItem)
        → ¬ SameKey flow other
        → stream (before ++ after) other ≡ stream bucket.list other
    others_lem other apart =
        sym (stream_other before node after other (other_flow _ flow other found.1 apart))
        ∙ ap (λ nodes. stream nodes other) (sym found.0)

    module _ (more : ltb (node.item.cur_len + flow.payload_len) limit ≡ true) where
      grown-IsSession : IsSession limit (grown node)
      grown-IsSession = record {
        sized =
            length-write (payload_of flow) node.item.buffer node.item.cur_len
            ∙ (sessions_lem.1.0).sized;
        limited = (sessions_lem.1.0).limited;
        filled = omega (arith, sum_lem, ltb→lt _ _ more);
      }

      grown-collected : collected (grown node) ≡ collected node ++ payload_of flow
      grown-collected =
          ap (λ n. take n (write node.item.buffer node.item.cur_len (payload_of flow)))
            (omega (arith, sum_lem, c.inside))
          ∙ take-write (payload_of flow) node.item.buffer node.item.cur_len
              (omega (arith, c.inside, (sessions_lem.1.0).sized, ltb→lt _ _ more))

      grown-BucketOk : BucketOk limit (record bucket { list = before ++ grown node ∷ after })
      grown-BucketOk = record {
        sessions =
            All-append (IsSession limit) before (grown node ∷ after) sessions_lem.0
              (grown-IsSession, sessions_lem.1.1);
        distinct =
            Distinct-replace before node (grown node) after (grown-same node)
              (rw found.0 at c.bucket_ok.distinct);
        counted = omega (
          arith,
          c.bucket_ok.counted,
          ap arr_length found.0,
          length-append before (node ∷ after),
          length-append before (grown node ∷ after),
        );
      }

      grown-IsAdded :
          IsAdded limit flow bucket (record bucket { list = before ++ grown node ∷ after }, pool)
      unfolding add_bytes
      grown-IsAdded =
          let own = grown-same node flow ∙ found.1 in
          record {
            bucket_ok = grown-BucketOk;
            pool_ok = c.pool_ok;
            own =
                stream-append before (grown node ∷ after) flow found.2
                ∙ stream-hit (grown node) after flow own
                ∙ rw (stream-Found bucket before node after found, used_lem, c.inside, more)
                    (ap (λ t. some t) grown-collected);
            others = λ other apart.
                stream_other before (grown node) after other (other_flow _ flow other own apart)
                ∙ others_lem other apart;
          }

      -- There is room for the payload.
      extended :
          extend_session now flow before node after (bucket, pool)
          ≡ returns (record bucket { list = before ++ grown node ∷ after }, pool)
      unfolding extend_session append_payload
      extended =
          let room : ltb (arr_length node.item.buffer) (node.item.cur_len + flow.payload_len)
              ≡ false =
            le→ltb _ _ (omega (arith, (sessions_lem.1.0).sized, ltb→lt _ _ more)) in
          rw (
            extend_session,
            ap₂ ltb sum_lem (sessions_lem.1.0).limited ∙ more,
            append_payload,
            room,
          )

    -- The session gives its node back when there is no room.
    ended-IsAdded :
        (pool' : Queue Blist)
        → PoolOk limit pool'
        → ltb (node.item.cur_len + flow.payload_len) limit ≡ false
        → IsAdded limit flow bucket
            (record { list = before ++ after; count = sub32 bucket.count 1 }, pool')
    unfolding add_bytes
    ended-IsAdded pool' pool_ok full =
        let b = c.bucket_ok in
        let rest = Distinct-after before node after flow (rw found.0 at b.distinct) found.1 in
        record {
          bucket_ok = record {
            sessions = All-append (IsSession limit) before after sessions_lem.0 sessions_lem.1.1;
            distinct = Distinct-remove before node after (rw found.0 at b.distinct);
            counted = omega (
              arith,
              b.counted,
              c.few,
              ap arr_length found.0,
              length-append before (node ∷ after),
              length-append before after,
            );
          };
          pool_ok = pool_ok;
          own =
              stream-append before after flow found.2
              ∙ stream-none after flow rest
              ∙ rw (stream-Found bucket before node after found, used_lem, c.inside, full);
          others = others_lem;
        }

    pub extend_session-IsAdded :
        (state : BucketState) × (extend_session now flow before node after (bucket, pool)
          ≡ returns state)
        × IsAdded limit flow bucket state
        × IsBalanced bucket pool state
    unfolding extend_session
    extend_session-IsAdded = elim (Bool-cases (ltb (node.item.cur_len + flow.payload_len) limit)) [
      | inl more ↦ (
        _,
        extended more,
        grown-IsAdded more,
        record {
          balance = omega (
            arith,
            ap arr_length found.0,
            length-append before (node ∷ after),
            length-append before (grown node ∷ after),
          );
          same = same_Perm (
              ap (λ xs. pooled pool ++ xs)
                (ap places found.0
                  ∙ places-append before (node ∷ after)
                  ∙ sym (places-append before (grown node ∷ after))));
          same_capacity = refl;
          counter = omega arith;
        },
      )
      | inr full ↦
          let sizes = length-append before (node ∷ after) in
          let not_full : pool.enqueue_count - pool.dequeue_count < capacity pool =
            omega (arith, c.room, ap arr_length found.0, sizes) in
          let (pool', run, pool_ok, c₁, c₂, c₃, put) =
            give_back limit pool node c.pool_ok (sessions_lem.1.0).sized not_full c.counter in
          (
            _,
            rw (extend_session, ap₂ ltb sum_lem (sessions_lem.1.0).limited ∙ full, run),
            ended-IsAdded pool' pool_ok full,
            record {
              balance = omega (
                arith,
                c₂,
                c₃,
                c.pool_ok.valid.ordered,
                ap arr_length found.0,
                sizes,
                length-append before after,
              );
              same =
                  ended_same before node after (contents null_blist pool)
                    (contents null_blist pool') bucket.list found.0 put;
              same_capacity = c₁;
              counter = omega (arith, c₃);
            },
          )
    ]
