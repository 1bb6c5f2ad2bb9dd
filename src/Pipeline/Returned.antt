-- ===== src/Pipeline/Returned.antt =====
-- What a round of a manager without sessions does around the two pools.
use freepacket.Base.{
  ℕ, zero, suc, ◌+◌, ◌*◌, ◌<◌, ◌≡◌, refl, sym, ap, ◌∙◌, List, [], ◌∷◌, ◌++◌, append_assoc, length,
  length-append, length-set, get_or, set, All, All-get_or, All-set, returns, spins, some, false,
  int_lt, u32, arith,
}
use mathlib.Core.List.{Perm, map-append}
use mathlib.Core.List.Perm
use mathlib.Core.Path.{subst}
use freepacket.Config.{SimConfig}
use freepacket.Queue.{Queue, capacity, slot, dequeue}
use freepacket.Queue.Single.{
  contents, stored, dropped, enqueue_room, dequeue_more, stored-Holds, dropped-Holds,
}
use freepacket.Queue.Fill.{length-contents}
use freepacket.Queue.Batch.{dequeue_same}
use freepacket.Parser.{Packet, FlowItem}
use freepacket.Parser.Loop.{null_packet, null_flow, null_queue, batch}
use freepacket.Session.{HashTable}
use freepacket.Manager.{ManagerState, release, packet_manager_round}
use freepacket.Pipeline.Circle.{ring, tag, tags}
use freepacket.Pipeline.Sound.{held, IsPlace-less, stored-IsPlace}
use freepacket.Pipeline.Flows.{in_queues, store_less}
use freepacket.Pipeline.Store.{IsStore}
use freepacket.Pipeline.Trio.{
  Trio, manages, move, no_table, manager_seen, manager_back, manager_queues, everywhere, packets_of,
  addresses, flow_places,
}
use freepacket.Pipeline.Whole.{IsWhole, IsWhole-less, IsKept}

-- A packet that comes back from the managers is at the end of the pool.
comes_back :
    (xs ys : List Packet) (flow : FlowItem) (old new : List FlowItem)
    → Perm old (flow ∷ new)
    → Perm
        (tags (xs ++ ys) ++ packets_of old)
        (tags (xs ++ (ys ++ flow.packet ∷ [])) ++ packets_of new)
comes_back xs ys flow old new moved =
    let there : tags (xs ++ (ys ++ flow.packet ∷ [])) ++ packets_of new
        ≡ tags (xs ++ ys) ++ packets_of (flow ∷ new) =
      ap (λ zs. tags zs ++ packets_of new) (sym (append_assoc xs ys (flow.packet ∷ [])))
      ∙ ap (λ zs. zs ++ packets_of new) (map-append tag (xs ++ ys) (flow.packet ∷ []))
      ∙ append_assoc (tags (xs ++ ys)) (tag flow.packet ∷ []) (packets_of new) in
    subst (λ zs. Perm (tags (xs ++ ys) ++ packets_of old) zs) (sym there)
      (Perm.append_left (tags (xs ++ ys)) (Perm.map (λ (f : FlowItem). tag f.packet) moved))

-- A flow item that comes back is at the end of its pool.
item_back :
    (free old new : List FlowItem) (flow : FlowItem)
    → Perm old (flow ∷ new)
    → Perm (addresses (free ++ old)) (addresses ((free ++ flow ∷ []) ++ new))
item_back free old new flow moved =
    subst (λ zs. Perm (addresses (free ++ old)) (addresses zs))
      (sym (append_assoc free (flow ∷ []) new))
      (Perm.map (λ (f : FlowItem). f.address) (Perm.append_left free moved))

-- A queue with something in it is there.
pub queue_there :
    (qs : List (Queue FlowItem)) (k : ℕ) → 0 < held (get_or qs k null_queue) → k < length qs
queue_there [] k h = absurd (omega (arith, h))
queue_there (q ∷ qs) zero h = omega arith
queue_there (q ∷ qs) (suc k) h = omega (arith, queue_there qs k h)

queue_empty :
    (b flows : ℕ) (qs : List (Queue FlowItem)) (k : ℕ)
    → All (IsStore b flows) qs
    → held (get_or qs k null_queue) ≡ 0
    → (get_or qs k null_queue).enqueue_count ≡ (get_or qs k null_queue).dequeue_count
queue_empty b flows [] k h e = refl
queue_empty b flows (q ∷ qs) zero (h, hs) e = omega (arith, h.valid.ordered)
queue_empty b flows (q ∷ qs) (suc k) (h, hs) e = queue_empty b flows qs k hs e

dropped_counts :
    (q : Queue FlowItem)
    → (capacity (dropped q) ≡ capacity q)
      × ((dropped q).enqueue_count ≡ q.enqueue_count)
      × ((dropped q).dequeue_count ≡ q.dequeue_count + 1)
unfolding dropped
dropped_counts q = (refl, refl, refl)

-- The flow at the front of the queue of manager `k`.
abbrev pub front_flow : ℕ → Trio → FlowItem
front_flow k s =
    let q = get_or (manager_queues s) k null_queue in
    get_or q.node (slot q q.dequeue_count) null_flow

-- What manager `k` has once it has taken the flow, with this table.
abbrev pub manager_took : ℕ → HashTable → Trio → ManagerState
manager_took k ht s = record (manager_seen k s) {
  queue = dropped (get_or (manager_queues s) k null_queue);
  alive = u32 (get_or s.alives k 0 + 1);
  ht = ht;
}

-- The flow of manager `k` is with the managers no more, and the table is in its place.
pub record IsTaken (k : ℕ) (ht : HashTable) (s s' : Trio) : Type 0 where
  pub tables : s'.tables ≡ set s.tables k ht
  pub numbers : s'.pair.parser.managers.numbers ≡ s.pair.parser.managers.numbers
  pub taken : Perm (in_queues (manager_queues s)) (front_flow k s ∷ in_queues (manager_queues s'))

module _ (n packets flows : ℕ) (config : SimConfig) where
  -- The flow at the front of a queue, and the others.
  pub front_leaves :
      (k : ℕ) (s : Trio)
      → IsWhole (suc n) packets flows s
      → 0 < held (get_or (manager_queues s) k null_queue)
      → let q = get_or (manager_queues s) k null_queue in
        (dequeue null_flow q ≡ some (front_flow k s, dropped q))
        × Perm
            (in_queues (manager_queues s))
            (front_flow k s ∷ in_queues (set (manager_queues s) k (dropped q)))
  front_leaves k s h some_there =
      let qs = manager_queues s in
      let q = get_or qs k null_queue in
      let inside = queue_there qs k some_there in
      let store =
        All-get_or (IsStore (0 + suc n * batch) flows) qs k null_queue h.managers.stores inside in
      let (front, valid) = dropped-Holds null_flow store.valid (omega arith) in
      let (moved, fewer) = store_less qs k (dropped q) (front_flow k s) inside front in
      (dequeue_more null_flow store.valid (omega arith), moved)

  -- The round of manager `k`, with a flow in its queue, that ends with the release of the flow.
  pub releases_keeps :
      (k now : ℕ) (ht : HashTable) (s : Trio)
      → IsWhole (suc n) packets flows s
      → 0 < held (get_or (manager_queues s) k null_queue)
      → packet_manager_round config now (manager_seen k s)
        ≡ release (front_flow k s) (manager_took k ht s)
      → (s' : Trio) × (move config (manages k now) s ≡ returns s')
        × IsKept n packets flows s s'
        × IsTaken k ht s s'
  unfolding move manager_seen manager_back release
  releases_keeps k now ht s h some_there ran =
      let g = s.pair.generator in
      let p = s.pair.parser in
      let qs = manager_queues s in
      let q = get_or qs k null_queue in
      let inside = queue_there qs k some_there in
      let less = IsWhole-less n packets flows s h in
      let store =
        All-get_or (IsStore (0 + n * batch) flows) qs k null_queue less.managers.stores inside in
      let flow = get_or q.node (slot q q.dequeue_count) null_flow in
      let (front, valid) = dropped-Holds null_flow store.valid (omega arith) in
      let (cap, in_count, out_count) = dropped_counts q in
      let (moved, fewer) = store_less qs k (dropped q) flow inside front in
      let (pool_place, pool_held, pool_holds) =
        stored-IsPlace n packets g.pool flow.packet h.pair.pool
          (omega (arith, h.pair.total, h.all_packets, fewer)) in
      let put =
        enqueue_room null_packet h.pair.pool.valid flow.packet
          (omega (arith, h.pair.pool.roomy, h.pair.total, h.all_packets, fewer))
          (omega (arith, h.pair.pool.counter)) in
      let f = h.flow_pool in
      let free : held p.pool < capacity p.pool = omega (arith, f.roomy, h.all_flows, fewer) in
      let put' = enqueue_room null_flow f.valid flow free (omega (arith, f.counter)) in
      let u = stored-Holds null_flow f.valid flow free (omega (arith, f.counter)) in
      let flow_held : held (stored p.pool flow) ≡ held p.pool + 1 =
        sym (length-contents null_flow (stored p.pool flow))
        ∙ ap length u.holds
        ∙ length-append (contents null_flow p.pool) (flow ∷ [])
        ∙ ap (λ j. j + 1) (length-contents null_flow p.pool) in
      let m : ManagerState = record (manager_seen k s) {
        queue = dropped q;
        alive = u32 (get_or s.alives k 0 + 1);
        ht = ht;
        packet_pool = stored g.pool flow.packet;
        flow_pool = stored p.pool flow;
      } in
      (
        manager_back k m s,
        rw (move, ran, release, put, put'),
        record {
          whole = record {
            outside = h.outside + 1;
            pair = record {
              pool = pool_place;
              queue = IsPlace-less n packets (ring s.pair) h.pair.queue;
              total = omega (arith, pool_held, h.pair.total);
              within = omega (arith, h.all_packets, fewer);
              one_parser = h.pair.one_parser;
              same_index = h.pair.same_index;
              same_turn = h.pair.same_turn;
              nums = h.pair.nums;
            };
            flow_pool = record {
              valid = u.valid;
              roomy = omega (arith, f.roomy, u.same_capacity);
              counter = omega (arith, f.counter, u.taken);
            };
            managers = record {
              some_managers = h.managers.some_managers;
              counted = h.managers.counted;
              cells = length-set qs k (dropped q) ∙ h.managers.cells;
              stores =
                  All-set (IsStore (0 + n * batch) flows) qs k (dropped q) less.managers.stores
                    (record {
                      valid = valid;
                      roomy = omega (arith, store.roomy, cap);
                      counter = omega (arith, store.counter, in_count);
                    });
              fits = omega (arith, h.managers.fits, fewer);
            };
            all_packets = omega (arith, h.all_packets, fewer);
            all_flows = omega (arith, flow_held, h.all_flows, fewer);
          };
          same =
              subst
                (λ zs. Perm (everywhere s) (
                  tags (contents null_packet (ring s.pair) ++ zs)
                  ++ packets_of (in_queues (set qs k (dropped q)))))
                (sym pool_holds)
                (comes_back (contents null_packet (ring s.pair)) (contents null_packet g.pool) flow
                  (in_queues qs) (in_queues (set qs k (dropped q))) moved);
          same_flows =
              subst
                (λ zs. Perm (flow_places s) (addresses (zs ++ in_queues (set qs k (dropped q)))))
                (sym u.holds)
                (item_back (contents null_flow p.pool) (in_queues qs)
                  (in_queues (set qs k (dropped q))) flow moved);
        },
        record { tables = refl; numbers = refl; taken = moved },
      )

  -- The round of manager `k` without sessions.
  pub manages_keeps :
      (k now : ℕ) (s : Trio)
      → IsWhole (suc n) packets flows s
      → 0 < held (get_or (manager_queues s) k null_queue)
      → int_lt 4 config.pipe_depth ≡ false
      → (s' : Trio) × (move config (manages k now) s ≡ returns s') × IsKept n packets flows s s'
  unfolding packet_manager_round manager_seen
  manages_keeps k now s h some_there shallow =
      let (got, moved) = front_leaves k s h some_there in
      let (s', went, kept, taken) =
        releases_keeps k now (get_or s.tables k no_table) s h some_there
          (rw (packet_manager_round, got, shallow) refl) in
      (s', went, kept)

  pub manages_waits :
      (k now : ℕ) (s : Trio)
      → IsWhole (suc n) packets flows s
      → held (get_or (manager_queues s) k null_queue) ≡ 0
      → move config (manages k now) s ≡ spins
  unfolding move manager_seen packet_manager_round
  manages_waits k now s h empty =
      let none_got =
        dequeue_same null_flow (get_or (manager_queues s) k null_queue)
          (queue_empty (0 + suc n * batch) flows (manager_queues s) k h.managers.stores empty) in
      rw (move, packet_manager_round, none_got)
