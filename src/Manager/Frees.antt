-- ===== src/Manager/Frees.antt =====
-- One round of `packet_manager_loop`, from a queue that has a flow.
use freepacket.Base.{
  returns, ℕ, ◌+◌, ◌-◌, ◌^◌, ◌<◌, ◌≡◌, refl, sym, ap, ◌∙◌, [], ◌∷◌, ◌++◌, true, false, get_or,
  int_lt, u32,
}
use freepacket.Config.{SimConfig}
use freepacket.Queue.{Queue, capacity, slot}
use freepacket.Queue.Single.{
  IsValid, contents, stored, dropped, enqueue_room, dequeue_more, stored-Holds, dropped-Holds,
}
use freepacket.Parser.{FlowItem}
use freepacket.Parser.Loop.{null_flow, null_packet}
use freepacket.Session.{payload_of}
use freepacket.Session.Added.{add_bytes, CanAdd}
use freepacket.Session.Refine.{TableOk, view, bucket_of, hash_add_item-refines}
use freepacket.Manager.{ManagerState, manager_hash, release, add_flow, packet_manager_round}

-- A pool that one more object can go back to.
pub record HasRoom {A : Type 0} (q : Queue A) : Type 0 where
  pub valid : IsValid q
  pub room : q.enqueue_count - q.dequeue_count < capacity q
  pub counter : q.enqueue_count + 1 < 2 ^ 64

-- The state after the release: both pools have grown by one, and nothing else has changed.
pub record IsReleased (flow : FlowItem) (s s' : ManagerState) : Type 0 where
  pub packets :
      contents null_packet s'.packet_pool ≡ contents null_packet s.packet_pool ++ flow.packet ∷ []
  pub flows : contents null_flow s'.flow_pool ≡ contents null_flow s.flow_pool ++ flow ∷ []
  pub same_table : s'.ht ≡ s.ht
  pub same_queue : s'.queue ≡ s.queue

release_lem :
    (flow : FlowItem) (s : ManagerState)
    → HasRoom s.packet_pool
    → HasRoom s.flow_pool
    → (s' : ManagerState) × (release flow s ≡ returns s') × IsReleased flow s s'
unfolding release
release_lem flow s p f = (
  record s { packet_pool = stored s.packet_pool flow.packet; flow_pool = stored s.flow_pool flow },
  rw (
    release,
    enqueue_room null_packet p.valid flow.packet p.room p.counter,
    enqueue_room null_flow f.valid flow f.room f.counter,
  ),
  record {
    packets = (stored-Holds null_packet p.valid flow.packet p.room p.counter).holds;
    flows = (stored-Holds null_flow f.valid flow f.room f.counter).holds;
    same_table = refl;
    same_queue = refl;
  },
)

-- The flow at the front of the queue.
abbrev pub front : ManagerState → FlowItem
front s = get_or s.queue.node (slot s.queue s.queue.dequeue_count) null_flow

-- What a round needs: a flow, and pools that can take it and its packet back.
pub record CanRound (s : ManagerState) : Type 0 where
  pub valid : IsValid s.queue
  pub some_flow : s.queue.dequeue_count < s.queue.enqueue_count
  pub packets : HasRoom s.packet_pool
  pub flows : HasRoom s.flow_pool

-- The flow has left the queue, and its packet and itself are back in their pools.
pub record IsFreed (s s' : ManagerState) : Type 0 where
  pub taken : contents null_flow s.queue ≡ front s ∷ contents null_flow s'.queue
  pub packets :
      contents null_packet s'.packet_pool
      ≡ contents null_packet s.packet_pool ++ (front s).packet ∷ []
  pub flows : contents null_flow s'.flow_pool ≡ contents null_flow s.flow_pool ++ front s ∷ []

-- With a flow in the queue and room in the pools, a round of `packet_manager_loop` whose pipeline
-- ends before the sessions returns: the flow leaves the queue, it and its packet go back to their
-- pools, and the table is untouched.
pub packet_manager_round-shallow :
    (config : SimConfig) (now : ℕ) (s : ManagerState)
    → int_lt 4 config.pipe_depth ≡ false
    → CanRound s
    → (s' : ManagerState) × (packet_manager_round config now s ≡ returns s')
      × IsFreed s s'
      × (s'.ht ≡ s.ht)
unfolding packet_manager_round
packet_manager_round-shallow config now s depth c =
    let (taken, v) = dropped-Holds null_flow c.valid c.some_flow in
    let started : ManagerState = record s { queue = dropped s.queue; alive = u32 (s.alive + 1) } in
    let (s', run, r) = release_lem (front s) started c.packets c.flows in
    (
      s',
      rw (packet_manager_round, dequeue_more null_flow c.valid c.some_flow, depth, run),
      record {
        taken = taken ∙ ap (λ q. front s ∷ contents null_flow q) (sym r.same_queue);
        packets = r.packets;
        flows = r.flows;
      },
      r.same_table,
    )

-- With a flow in the queue, room in the pools, and a table with a session free that the flow can be
-- added to, a round
-- of `packet_manager_loop` with sessions returns: the payload goes to the session of the flow in
-- the table, which stays sound, and the flow leaves the queue and goes back to its pool with its
-- packet, whatever becomes of the session.
pub packet_manager_round-deep :
    (limit : ℕ) (config : SimConfig) (now : ℕ) (s : ManagerState)
    → int_lt 4 config.pipe_depth ≡ true
    → limit < 2 ^ 31
    → config.manager_buffer_size ≡ limit
    → CanRound s
    → let key = manager_hash (front s) s.ht.num_buckets in
      TableOk limit s.ht
      → CanAdd limit (front s) (bucket_of s.ht key) s.ht.session_pool
      → s.ht.session_pool.dequeue_count < s.ht.session_pool.enqueue_count
      → (s' : ManagerState) × (packet_manager_round config now s ≡ returns s')
        × IsFreed s s'
        × TableOk limit s'.ht
        × (view s'.ht key (front s)
            ≡ add_bytes limit (view s.ht key (front s)) (payload_of (front s)))
unfolding packet_manager_round add_flow
packet_manager_round-deep limit config now s depth small size c ok add some_free =
    let flow = front s in
    let key = manager_hash flow s.ht.num_buckets in
    let (taken, v) = dropped-Holds null_flow c.valid c.some_flow in
    let (ht', run_add, ok', own, others) =
      hash_add_item-refines limit config now s.ht key flow small size ok add some_free in
    let added : ManagerState = record s {
      queue = dropped s.queue;
      alive = u32 (s.alive + 1);
      ht = ht';
    } in
    let (s', run, r) = release_lem flow added c.packets c.flows in
    (
      s',
      rw (
        packet_manager_round,
        dequeue_more null_flow c.valid c.some_flow,
        depth,
        add_flow,
        run_add,
        run,
      ),
      record {
        taken = taken ∙ ap (λ q. flow ∷ contents null_flow q) (sym r.same_queue);
        packets = r.packets;
        flows = r.flows;
      },
      rw r.same_table ok',
      ap (λ ht. view ht key flow) r.same_table ∙ own,
    )
