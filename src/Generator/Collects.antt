-- ===== src/Generator/Collects.antt =====
-- One round of the collector: where a frame of the card goes.
use freepacket.Base.{
  sign_extend, ℕ, ◌+◌, ◌-◌, ◌^◌, ◌≤◌, ◌<◌, ◌≡◌, ◌≢◌, refl, ap, ◌∙◌, List, [], ◌∷◌, ◌++◌, some, true,
  returns, length, get_or, set, get_or-set_self, get_or-set_ne, u32, u64, int_lt, take, le→ltb,
}
use freepacket.Memory.{write}
use freepacket.Config.{SimConfig}
use freepacket.Queue.{Queue, capacity}
use freepacket.Queue.Single.{IsValid, contents, stored, dropped, enqueue_room, stored-Holds}
use freepacket.Queue.Rotate.{dequeue_front}
use freepacket.Parser.{Packet}
use freepacket.Parser.Loop.{null_packet}
use freepacket.Generator.{next_thread, pay_len}
use freepacket.Generator.Loop.{GeneratorState, null_queue}
use freepacket.Generator.Collector.{Arrival, pass_on, count_frame, collect, tick, collector_round}

abbrev pub parser_queue : GeneratorState → ℕ → Queue Packet
parser_queue s k = get_or s.parsers k null_queue

-- The packet that a frame becomes.
abbrev pub framed : ℕ → List ℕ → ℕ → Packet → Packet
framed pool_id va l2_length packet = record packet {
  pool = pool_id;
  bytes = write packet.bytes pay_len (take l2_length va);
  length = l2_length;
}

-- A packet at the front of the pool, and an existing parser with room for it.
pub record CanCollect (packet : Packet) (rest : List Packet) (s : GeneratorState) : Type 0 where
  pub valid : IsValid s.pool
  pub front : contents null_packet s.pool ≡ packet ∷ rest
  pub existing : s.next_thread_id < length s.parsers
  pub parser_valid : IsValid (parser_queue s s.next_thread_id)
  pub room :
      (parser_queue s s.next_thread_id).enqueue_count
        - (parser_queue s s.next_thread_id).dequeue_count
      < capacity (parser_queue s s.next_thread_id)
  pub counter : (parser_queue s s.next_thread_id).enqueue_count + 1 < 2 ^ 64

-- The packet has left the pool for the queue of the next parser, and no other queue has changed.
pub record IsCollected (packet : Packet) (rest : List Packet) (s s' : GeneratorState) : Type 0 where
  pub taken : contents null_packet s'.pool ≡ rest
  pub passed :
      contents null_packet (parser_queue s' s.next_thread_id)
      ≡ contents null_packet (parser_queue s s.next_thread_id) ++ packet ∷ []
  pub others : (k : ℕ) → s.next_thread_id ≢ k → parser_queue s' k ≡ parser_queue s k
  pub same_config : s'.config ≡ s.config
  pub counted : s'.total_send_byte ≡ u64 (s.total_send_byte + sign_extend packet.length)

-- With a pipeline that has parsers, a packet in the pool and room at the parser whose turn it is,
-- a round of the collector on a frame of more than 40 bytes that fits behind the first two bytes
-- of the buffer returns: the packet leaves the pool, gets the frame and its length, and is
-- appended to the queue of that parser; every other queue stays, and the bytes are counted.
pub collector_round-IsCollected :
    (global_config : SimConfig) (pool_id : ℕ) (arrival : Arrival) (va : List ℕ) (packet : Packet)
    (rest : List Packet) (s : GeneratorState)
    → int_lt 1 global_config.pipe_depth ≡ true
    → arrival.va ≡ some va
    → int_lt 40 arrival.l2_length ≡ true
    → pay_len + arrival.l2_length ≤ length packet.bytes
    → CanCollect packet rest s
    → (s' : GeneratorState) × (collector_round global_config pool_id arrival s ≡ returns s')
      × IsCollected (framed pool_id va arrival.l2_length packet) rest s s'
unfolding collector_round collect pass_on count_frame tick
collector_round-IsCollected g pool_id arrival va packet rest s depth there long fits c =
    let (taken, v', rest_lem, count) =
      dequeue_front null_packet s.pool packet rest c.valid c.front in
    let q = parser_queue s s.next_thread_id in
    let p = framed pool_id va arrival.l2_length packet in
    let run = enqueue_room null_packet c.parser_valid p c.room c.counter in
    let h = stored-Holds null_packet c.parser_valid p c.room c.counter in
    (
      record s {
        pool = dropped s.pool;
        parsers = set s.parsers s.next_thread_id (stored q p);
        next_thread_id =
            next_thread (s.config).generator_nums (s.config).parser_nums s.index s.next_thread_id;
        total_send_byte = u64 (s.total_send_byte + sign_extend arrival.l2_length);
        alive = u32 (u32 (s.alive + 1) + 1);
      },
      rw (
        collector_round,
        there,
        long,
        collect,
        taken,
        le→ltb _ _ fits,
        pass_on,
        depth,
        run,
        count_frame,
        tick,
      ),
      record {
        taken = rest_lem;
        passed =
            ap (contents null_packet)
              (get_or-set_self s.parsers s.next_thread_id (stored q p) null_queue c.existing)
            ∙ h.holds;
        others =
            λ k apart. get_or-set_ne s.parsers s.next_thread_id k (stored q p) null_queue apart;
        same_config = refl;
        counted = refl;
      },
    )
