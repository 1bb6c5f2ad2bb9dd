-- ===== src/Session/Starts.antt =====
-- The branch of `hash_add_item` that starts a session.
use freepacket.Base.{
  returns, ℕ, ◌+◌, ◌<◌, ◌≡◌, refl, sym, ap, ◌∙◌, [], ◌∷◌, ◌++◌, some, true, false, arith,
  length as arr_length, length-append, append-nil, All-append, ltb, le→ltb, take, u32,
}
use mathlib.Core.List.{Perm, map-append}
use mathlib.Core.Path.{subst}
use freepacket.Base.Places.{first_to_last}
use freepacket.Session.Places.{places, pooled}
use freepacket.Memory.{write}
use freepacket.Memory.Frame.{length-write}
use freepacket.Memory.Append.{take-write}
use freepacket.Config.{SimConfig}
use freepacket.Queue.{Queue}
use freepacket.Parser.{FlowItem}
use freepacket.Session.{
  Blist, Bucket, BucketState, matches, payload_of, make_new_session, add_session,
}
use freepacket.Session.Find.{NoneMatches}
use freepacket.Session.Keys.{
  HasKey-matches, stream, stream-none, stream-append, stream-hit, stream_other, collected,
}
use freepacket.Session.Distinct.{Distinct-add}
use freepacket.Session.Table.{IsSession, take_node}
use freepacket.Session.Added.{add_bytes, CanAdd, IsAdded, IsBalanced, other_flow}

module _ (limit : ℕ) (config : SimConfig) (now : ℕ) (flow : FlowItem) where
  -- The node that `make_new_session` fills in.
  abbrev started : Blist → Blist
  started node = record node {
    item = record {
      upper_ip = flow.upper_ip;
      lower_ip = flow.lower_ip;
      upper_port = flow.upper_port;
      lower_port = flow.lower_port;
      protocol = flow.protocol;
      buffer = write node.item.buffer 0 (payload_of flow);
      last_time = now;
      length = config.manager_buffer_size;
      cur_len = flow.payload_len;
    };
  }

  pub add_session-IsAdded :
      (bucket : Bucket) (pool : Queue Blist)
      → config.manager_buffer_size ≡ limit
      → CanAdd limit flow bucket pool
      → pool.dequeue_count < pool.enqueue_count
      → NoneMatches flow bucket.list
      → (state : BucketState) × (add_session config now flow (bucket, pool) ≡ returns state)
        × IsAdded limit flow bucket state
        × IsBalanced bucket pool state
  unfolding add_session make_new_session add_bytes
  add_session-IsAdded bucket pool size c some_free miss =
      let (node, pool', run, sized, pool_ok, cap, out, counter, front) =
        take_node limit pool c.pool_ok some_free in
      let room : ltb (arr_length node.item.buffer) flow.payload_len ≡ false =
        le→ltb _ _ (omega (arith, sized, c.fits)) in
      let own : matches (started node).item flow ≡ true = HasKey-matches _ _ (record {
        protocol = refl;
        upper_ip = refl;
        lower_ip = refl;
        upper_port = refl;
        lower_port = refl;
      }) in
      let len : flow.payload_len ≡ 0 + arr_length (payload_of flow) = omega (arith, c.inside) in
      let payload : collected (started node) ≡ payload_of flow =
        ap (λ n. take n (write node.item.buffer 0 (payload_of flow))) len
        ∙ take-write (payload_of flow) node.item.buffer 0
            (omega (arith, c.inside, c.fits, sized)) in
      let b = c.bucket_ok in
      (
        (record { list = bucket.list ++ started node ∷ []; count = u32 (bucket.count + 1) }, pool'),
        rw (add_session, run, make_new_session, room),
        record {
          bucket_ok = record {
            sessions = All-append (IsSession limit) bucket.list (started node ∷ []) b.sessions (
              record {
                sized = length-write (payload_of flow) node.item.buffer 0 ∙ sized;
                limited = size;
                filled = c.fits;
              },
              tt,
            );
            distinct = Distinct-add bucket.list (started node) flow own miss b.distinct;
            counted =
                omega (arith, b.counted, c.few, length-append bucket.list (started node ∷ []));
          };
          pool_ok = pool_ok;
          own =
              stream-append bucket.list (started node ∷ []) flow miss
              ∙ stream-hit (started node) [] flow own
              ∙ ap (λ bytes. some bytes) payload
              ∙ sym (
                  ap (λ old. add_bytes limit old (payload_of flow))
                    (stream-none bucket.list flow miss));
          others = λ other apart.
              stream_other bucket.list (started node) [] other (other_flow _ flow other own apart)
              ∙ ap (λ nodes. stream nodes other) (append-nil bucket.list);
        },
        record {
          balance =
              omega (arith, out, counter, some_free, length-append bucket.list (started node ∷ []));
          same =
              subst
                (λ xs.
                  Perm (places xs ++ places bucket.list)
                    (pooled pool' ++ places (bucket.list ++ started node ∷ [])))
                (sym front)
                (subst
                  (λ zs.
                    Perm ((node.address ∷ pooled pool') ++ places bucket.list) (pooled pool' ++ zs))
                  (sym (map-append (λ (b : Blist). b.address) bucket.list (started node ∷ [])))
                  (first_to_last node.address (pooled pool') (places bucket.list)));
          same_capacity = cap;
          counter = omega (arith, counter);
        },
      )
