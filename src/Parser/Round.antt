-- ===== src/Parser/Round.antt =====
-- A round of `packet_parser_loop`: where its 64 packets and flow items go.
use freepacket.Base.{
  returns, ℕ, suc, ◌+◌, ◌-◌, ◌^◌, ◌≤◌, ◌<◌, ◌≡◌, refl, ap, ◌∙◌, List, [], ◌∷◌, ◌++◌, some, Bool,
  true, false, arith, length as arr_length, length-take, get_or, take, drop, length-drop, u32,
  int_lt, Bool-cases, inl, inr, if◌then◌else◌, ltb,
}
use freepacket.Config.{SimConfig}
use freepacket.Queue.{Queue, capacity, enqueue_multiple, dequeue_multiple}
use freepacket.Queue.Window.{length-window}
use freepacket.Queue.Single.{IsValid, contents, Holds}
use freepacket.Queue.Batch.{enqueue_multiple_room, dequeue_multiple_more}
use freepacket.Parser.{Packet, FlowItem}
use freepacket.Parser.Loop.{
  ParserState, batch, null_packet, null_flow, null_queue, make_flows, release, release_both,
  parse_batch, packet_parser_round,
}
use freepacket.Parser.Distribute.{CanSend, routed, send_flows-routed}

-- A queue with a batch in it, whose counter is within 32 bits.
pub record HasBatch {ℓ} {A : Type ℓ} (q : Queue A) : Type ℓ where
  pub valid : IsValid q
  pub enough : batch ≤ q.enqueue_count - q.dequeue_count
  pub counter : q.enqueue_count + batch < 2 ^ 32

-- The batch at the front of a queue.
abbrev pub front_batch {ℓ} : {A : Type ℓ} → A → Queue A → List A
front_batch null q = take batch (contents null q)

-- The flows that the parser makes of the batch at the front of its queue.
abbrev pub parsed : ParserState → List FlowItem
parsed s = make_flows (front_batch null_flow s.pool) (front_batch null_packet s.queue)

length-front_batch {ℓ} :
    {A : Type ℓ} (null : A) (q : Queue A) → HasBatch q → arr_length (front_batch null q) ≡ batch
length-front_batch null q h = omega (
  arith,
  length-take batch (contents null q),
  length-window null (capacity q) q.node q.dequeue_count (q.enqueue_count - q.dequeue_count),
  h.enough,
)

pub length-make_flows :
    (flows : List FlowItem) (packets : List Packet)
    → arr_length flows ≡ arr_length packets
    → arr_length (make_flows flows packets) ≡ arr_length packets
unfolding make_flows
length-make_flows [] [] h = refl
length-make_flows [] (p ∷ packets) h = absurd (omega (arith, h))
length-make_flows (f ∷ flows) [] h = absurd (omega (arith, h))
length-make_flows (f ∷ flows) (p ∷ packets) h =
    ap suc (length-make_flows flows packets (omega (arith, h)))

length-parsed :
    (s : ParserState) → HasBatch s.queue → HasBatch s.pool → arr_length (parsed s) ≡ batch
length-parsed s hq hp =
    let np = length-front_batch null_packet s.queue hq in
    let nf = length-front_batch null_flow s.pool hp in
    length-make_flows (front_batch null_flow s.pool) (front_batch null_packet s.queue)
      (omega (arith, np, nf))
    ∙ np

take_batch {ℓ} :
    {A : Type ℓ} (null : A) (q : Queue A)
    → HasBatch q
    → (q' : Queue A) × (dequeue_multiple null q batch ≡ some (front_batch null q, q'))
      × Holds null (capacity q) q.enqueue_count (drop batch (contents null q)) q'
take_batch null q h =
    dequeue_multiple_more null h.valid batch h.enough (omega (arith, h.counter)) (omega arith)

-- The batch has left the queue and the pool of the parser, and its flows are behind those of the
-- managers that they hash to.
pub record IsHandedOn (s s' : ParserState) : Type 0 where
  pub queue : contents null_packet s'.queue ≡ drop batch (contents null_packet s.queue)
  pub pool : contents null_flow s'.pool ≡ drop batch (contents null_flow s.pool)
  pub packet_pool : s'.packet_pool ≡ s.packet_pool
  pub managers :
      (k : ℕ)
      → contents null_flow (get_or s'.managers.queues k null_queue)
        ≡ contents null_flow (get_or s.managers.queues k null_queue)
          ++ routed s.managers.numbers k (parsed s)

-- With 64 packets in the queue of the parser and 64 flow items in its pool, whose counters are
-- within 32 bits, and one to 36 managers with room for 64 flows, a round of `packet_parser_loop`
-- whose pipeline has managers returns: the oldest 64 packets and flow items leave, the packets are
-- not released, and the queue of each manager then holds what it held, followed by the flows of
-- the packets that hash to it, in their order: none is lost, doubled or sent elsewhere.
pub packet_parser_round-IsHandedOn :
    (config : SimConfig) (s : ParserState)
    → config.pipe_depth < 2 ^ 31
    → 3 < config.pipe_depth
    → HasBatch s.queue
    → HasBatch s.pool
    → CanSend batch s.managers
    → (s' : ParserState) × (packet_parser_round config s ≡ returns s') × IsHandedOn s s'
unfolding packet_parser_round parse_batch
packet_parser_round-IsHandedOn config s signed deep hq hp c =
    let (queue, run₁, t₁) = take_batch null_packet s.queue hq in
    let (pool, run₂, t₂) = take_batch null_flow s.pool hp in
    let (m, run₃, at) = send_flows-routed (parsed s) s.managers (rw (length-parsed s hq hp) c) in
    let d₂ : int_lt 2 config.pipe_depth ≡ true = ground arith in
    let d₃ : int_lt 3 config.pipe_depth ≡ true = ground arith in
    (
      record s { queue = queue; pool = pool; managers = m; alive = u32 (s.alive + 1) },
      rw (packet_parser_round, run₁, d₂, parse_batch, run₂, d₃, run₃),
      record { queue = t₁.holds; pool = t₂.holds; packet_pool = refl; managers = at },
    )

-- A pool that a batch can go back to.
pub record HasPlace {ℓ} {A : Type ℓ} (q : Queue A) : Type ℓ where
  pub valid : IsValid q
  pub room : q.enqueue_count - q.dequeue_count + batch ≤ capacity q
  pub counter : q.enqueue_count + batch < 2 ^ 32

give_batch {ℓ} :
    {A : Type ℓ} (null : A) (q : Queue A) (xs : List A)
    → arr_length xs ≡ batch
    → HasPlace q
    → (q' : Queue A) × (enqueue_multiple q xs ≡ some q')
      × (contents null q' ≡ contents null q ++ xs)
give_batch null q xs size h =
    let (q', run, t) =
      enqueue_multiple_room null h.valid xs (omega (arith, size, h.room))
        (omega (arith, size, h.counter)) in
    (q', run, t.holds)

-- The queue that a batch has left has a place for one.
drop-HasPlace {ℓ} :
    {A : Type ℓ} (null : A) (q q' : Queue A)
    → HasBatch q
    → Holds null (capacity q) q.enqueue_count (drop batch (contents null q)) q'
    → HasPlace q'
drop-HasPlace null q q' h t =
    let before =
      length-window null (capacity q) q.node q.dequeue_count (q.enqueue_count - q.dequeue_count) in
    let after =
      length-window null (capacity q') q'.node q'.dequeue_count
        (q'.enqueue_count - q'.dequeue_count) in
    record {
      valid = t.valid;
      room = omega (
        arith,
        before,
        after,
        ap arr_length t.holds,
        length-drop batch (contents null q),
        h.enough,
        (h.valid).ordered,
        (h.valid).bounded,
        t.same_capacity,
      );
      counter = omega (arith, h.counter, t.taken);
    }

-- The packets of the batch are back in their pool, the flow items behind those of the parser's
-- pool if it has taken any, and the managers are as they were.
pub record IsReleased (takes : Bool) (s s' : ParserState) : Type 0 where
  pub queue : contents null_packet s'.queue ≡ drop batch (contents null_packet s.queue)
  pub packet_pool :
      contents null_packet s'.packet_pool
      ≡ contents null_packet s.packet_pool ++ front_batch null_packet s.queue
  pub pool : contents null_flow s'.pool ≡ (
      if takes
      then drop batch (contents null_flow s.pool) ++ parsed s
      else contents null_flow s.pool)
  pub managers : s'.managers ≡ s.managers

-- With 64 packets in the queue of the parser, 64 flow items in its pool and a place for 64 packets
-- in the pool of the first packet, all with counters within 32 bits, a round of
-- `packet_parser_loop` whose pipeline has no managers returns: the oldest 64 packets go back to
-- their pool in their order. At a depth of 3 the oldest 64 flow items go to the end of the
-- parser's pool, filled in from the packets; below it that pool stays.
pub packet_parser_round-IsReleased :
    (config : SimConfig) (s : ParserState)
    → config.pipe_depth ≤ 3
    → HasBatch s.queue
    → HasBatch s.pool
    → HasPlace s.packet_pool
    → (s' : ParserState) × (packet_parser_round config s ≡ returns s')
      × IsReleased (ltb 2 config.pipe_depth) s s'
unfolding packet_parser_round parse_batch release release_both
packet_parser_round-IsReleased config s shallow hq hp hr =
    let (queue, run₁, t₁) = take_batch null_packet s.queue hq in
    let (pool, run₂, t₂) = take_batch null_flow s.pool hp in
    let packets = front_batch null_packet s.queue in
    let (packet_pool, run₃, back) =
      give_batch null_packet s.packet_pool packets (length-front_batch null_packet s.queue hq) hr in
    let (pool', run₄, back') =
      give_batch null_flow pool (parsed s) (length-parsed s hq hp)
        (drop-HasPlace null_flow s.pool pool hp t₂) in
    let d₃ : int_lt 3 config.pipe_depth ≡ false = ground arith in
    let d₂ : int_lt 2 config.pipe_depth ≡ ltb 2 config.pipe_depth = ground arith in
    elim (Bool-cases (ltb 2 config.pipe_depth)) [
      | inl takes ↦ (
        record s {
          queue = queue;
          pool = pool';
          packet_pool = packet_pool;
          alive = u32 (s.alive + 1);
        },
        rw (
          packet_parser_round, run₁, d₂, takes, parse_batch, run₂, d₃, release_both, release, run₃,
          run₄,
        ),
        rw takes (record {
          queue = t₁.holds;
          packet_pool = back;
          pool = back' ∙ ap (λ xs. xs ++ parsed s) t₂.holds;
          managers = refl;
        }),
      )
      | inr skips ↦ (
        record s { queue = queue; packet_pool = packet_pool; alive = u32 (s.alive + 1) },
        rw (packet_parser_round, run₁, d₂, skips, release, run₃),
        rw skips (record { queue = t₁.holds; packet_pool = back; pool = refl; managers = refl }),
      )
    ]
