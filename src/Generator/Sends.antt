-- ===== src/Generator/Sends.antt =====
-- One round of `packet_generator`: where the packet goes.
use freepacket.Base.{
  sign_extend, returns, List, ◌≤◌, ◌%◌, ◌⊎◌, inl, inr, false, Bool-cases, ℕ, ◌+◌, ◌-◌, ◌^◌, ◌<◌,
  ◌≡◌, ◌≢◌, refl, ap, ◌∙◌, [], ◌∷◌, ◌++◌, true, length, get_or, set, get_or-set_self, get_or-set_ne,
  int_lt, u64,
}
use freepacket.Config.{SimConfig}
use freepacket.Queue.{Queue, capacity, slot}
use freepacket.Queue.Single.{
  IsValid, contents, stored, dropped, enqueue_room, dequeue_more, stored-Holds, dropped-Holds,
}
use freepacket.Parser.{Packet}
use freepacket.Parser.Loop.{null_packet}
use freepacket.Generator.{refresh, next_thread}
use freepacket.Generator.Refresh.{IsRefreshed, refresh-IsRefreshed}
use freepacket.Generator.Loop.{
  GeneratorState, null_queue, count_packet, send_packet, packet_generator_round,
}

-- The packet at the front of the pool, and what the round makes of it.
abbrev pub front : GeneratorState → Packet
front s = get_or s.pool.node (slot s.pool s.pool.dequeue_count) null_packet

abbrev pub refreshed : GeneratorState → Packet
refreshed s = record (front s) { bytes = (refresh (front s).bytes s.config).0 }

abbrev pub parser_queue : GeneratorState → ℕ → Queue Packet
parser_queue s k = get_or s.parsers k null_queue

-- A packet in the pool, and an existing parser with room for it.
pub record CanSend (s : GeneratorState) : Type 0 where
  pub valid : IsValid s.pool
  pub some_packet : s.pool.dequeue_count < s.pool.enqueue_count
  pub existing : s.next_thread_id < length s.parsers
  pub parser_valid : IsValid (parser_queue s s.next_thread_id)
  pub room :
      (parser_queue s s.next_thread_id).enqueue_count
        - (parser_queue s s.next_thread_id).dequeue_count
      < capacity (parser_queue s s.next_thread_id)
  pub counter : (parser_queue s s.next_thread_id).enqueue_count + 1 < 2 ^ 64
  pub sized : 40 ≤ length (front s).bytes

-- The packet that is sent: that of the pool with other bytes.
abbrev pub sent : GeneratorState → List ℕ → Packet
sent s bytes = record (front s) { bytes = bytes }

-- The packet has left the pool for the queue of the next parser, with the addresses and ports of the
-- cursors after their step, and no other queue has changed.
pub record IsPassedOn (s s' : GeneratorState) : Type 0 where
  pub bytes : List ℕ
  pub taken : contents null_packet s.pool ≡ front s ∷ contents null_packet s'.pool
  pub passed :
      contents null_packet (parser_queue s' s.next_thread_id)
      ≡ contents null_packet (parser_queue s s.next_thread_id) ++ sent s bytes ∷ []
  pub written : IsRefreshed (front s).bytes s.config bytes s'.config
  pub others : (k : ℕ) → s.next_thread_id ≢ k → parser_queue s' k ≡ parser_queue s k
  pub turn :
      let next = (s.next_thread_id + s.config.generator_nums) % 2 ^ 32 in
      ((int_lt next s.config.parser_nums ≡ true) × (s'.next_thread_id ≡ next))
      ⊎ ((int_lt next s.config.parser_nums ≡ false) × (s'.next_thread_id ≡ s.index))
  pub counted : s'.total_send_byte ≡ u64 (s.total_send_byte + sign_extend s.config.pktlen)

turn_lem :
    (g_nums p_nums index i : ℕ)
    → ((int_lt ((i + g_nums) % 2 ^ 32) p_nums ≡ true)
        × (next_thread g_nums p_nums index i ≡ (i + g_nums) % 2 ^ 32))
      ⊎ ((int_lt ((i + g_nums) % 2 ^ 32) p_nums ≡ false)
          × (next_thread g_nums p_nums index i ≡ index))
unfolding next_thread
turn_lem g_nums p_nums index i = elim (Bool-cases (int_lt ((i + g_nums) % 2 ^ 32) p_nums)) [
  | inl more ↦ inl (more, rw more refl)
  | inr last ↦ inr (last, rw last refl)
]

-- With a packet in the pool and room at an existing parser whose turn it is, a round of
-- `packet_generator` whose pipeline has parsers returns: the packet at the front of the pool, with
-- the addresses and ports of the cursors, each of which has made one step through its range, is
-- appended to the queue of that parser, and every other queue stays. The turn goes to the parser
-- that is `generator_nums` further, or back to the generator's own index when there is none, and
-- the configured length is added to the byte count.
pub packet_generator_round-IsPassedOn :
    (global_config : SimConfig) (s : GeneratorState)
    → int_lt 1 global_config.pipe_depth ≡ true
    → CanSend s
    → (s' : GeneratorState) × (packet_generator_round global_config s ≡ returns s')
      × IsPassedOn s s'
unfolding packet_generator_round send_packet count_packet refresh
packet_generator_round-IsPassedOn global_config s depth c =
    let (taken, v) = dropped-Holds null_packet c.valid c.some_packet in
    let q = parser_queue s s.next_thread_id in
    let run = enqueue_room null_packet c.parser_valid (refreshed s) c.room c.counter in
    let h = stored-Holds null_packet c.parser_valid (refreshed s) c.room c.counter in
    let config = (refresh (front s).bytes s.config).1 in
    (
      count_packet (record s {
        config = config;
        pool = dropped s.pool;
        parsers = set s.parsers s.next_thread_id (stored q (refreshed s));
        next_thread_id =
            next_thread config.generator_nums config.parser_nums s.index s.next_thread_id;
      }),
      rw (
        packet_generator_round,
        dequeue_more null_packet c.valid c.some_packet,
        send_packet,
        depth,
        run,
      ),
      record {
        bytes = (refresh (front s).bytes s.config).0;
        written = refresh-IsRefreshed (front s).bytes s.config c.sized;
        taken = taken;
        passed =
            ap (contents null_packet) (
              get_or-set_self s.parsers s.next_thread_id (stored q (refreshed s)) null_queue
                c.existing)
            ∙ h.holds;
        others = λ k apart.
            get_or-set_ne s.parsers s.next_thread_id k (stored q (refreshed s)) null_queue apart;
        turn = turn_lem s.config.generator_nums s.config.parser_nums s.index s.next_thread_id;
        counted = refl;
      },
    )
