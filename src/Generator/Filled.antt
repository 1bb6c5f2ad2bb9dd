-- ===== src/Generator/Filled.antt =====
-- The pool that a generator starts its loop with.
use freepacket.Base.{
  ℕ, ◌+◌, ◌^◌, ◌≤◌, ◌<◌, ◌≡◌, refl, sym, ap, ◌∙◌, List, [], ◌∷◌, ◌++◌, append_assoc, append-nil,
  some, returns, length as arr_length, length-append, All, All-append, arith,
}
use mathlib.Core.Path.{subst}
use freepacket.Config.{SimConfig}
use freepacket.Queue.{Queue, capacity}
use freepacket.Queue.Single.{IsValid, contents, Holds, stored, dropped}
use freepacket.Queue.Fill.{fill_pool-init}
use freepacket.Queue.Rotate.{dequeue_front, enqueue_back}
use freepacket.Parser.{Packet}
use freepacket.Parser.Loop.{null_packet}
use freepacket.Generator.{generator_tcp_packet}
use freepacket.Generator.RoundTrip.{IsTcpFrame, thread_nums, generator_tcp_packet-IsGenerated}
use freepacket.Generator.Loop.{GeneratorState, make_packet, make_packets}
use freepacket.Generator.Start.{init_single_generator, start_packets}

-- A packet whose buffer holds the configured length and the two bytes in front of it.
abbrev pub IsRoomy : ℕ → Packet → Type 0
IsRoomy pktlen packet = arr_length packet.bytes ≡ pktlen + 2

-- A TCP frame of the configured length that belongs to the pool.
pub record IsMade (pktlen pool_id : ℕ) (packet : Packet) : Type 0 where
  pub saddr : ℕ
  pub daddr : ℕ
  pub source : ℕ
  pub dest : ℕ
  pub framed : IsTcpFrame packet.bytes saddr daddr source dest
  pub roomy : IsRoomy pktlen packet
  pub length_set : packet.length ≡ pktlen
  pub pool_set : packet.pool ≡ pool_id

-- What `make_all_packet` needs of the configuration and the fuel.
pub record CanMake (fuel pktlen : ℕ) (text : List ℕ) (c : SimConfig) : Type 0 where
  pub has_text : c.pkt_data ≡ some text
  pub some_text : 0 < arr_length text
  pub short : arr_length text < 2 ^ 31
  pub same : c.pktlen ≡ pktlen
  pub least : 54 ≤ pktlen
  pub most : pktlen < 2 ^ 31
  pub enough : pktlen < fuel

-- A pool of `n` packets, all of them made.
pub record IsStocked (pktlen pool_id n : ℕ) (pool : Queue Packet) : Type 0 where
  pub valid : IsValid pool
  pub stock : arr_length (contents null_packet pool) ≡ n
  pub made : All (IsMade pktlen pool_id) (contents null_packet pool)

module _ (fuel pktlen : ℕ) (text : List ℕ) (pool_id : ℕ) where
  -- One round: the packet at the front is made and goes to the end.
  make_packet-IsMade :
      (c : SimConfig) (pool : Queue Packet) (packet : Packet) (rest : List Packet)
      → CanMake fuel pktlen text c
      → IsValid pool
      → contents null_packet pool ≡ packet ∷ rest
      → pool.enqueue_count + 1 < 2 ^ 64
      → IsRoomy pktlen packet
      → (c' : SimConfig) × (made : Packet) × (pool' : Queue Packet) × (make_packet
            (generator_tcp_packet fuel)
            pool_id
            (c, pool)
          ≡ some (returns (c', pool')))
        × CanMake fuel pktlen text c'
        × IsMade pktlen pool_id made
        × Holds null_packet (capacity pool) (pool.enqueue_count + 1) (rest ++ made ∷ []) pool'
        × (thread_nums c' ≡ thread_nums c)
  unfolding make_packet
  make_packet-IsMade c pool packet rest m v full wide roomy =
      let (taken, v', rest_lem, count) = dequeue_front null_packet pool packet rest v full in
      let ((out, c'), run, g) =
        generator_tcp_packet-IsGenerated fuel packet.bytes text c m.has_text m.some_text m.short
          (omega (arith, m.least, m.same)) (omega (arith, m.most, m.same))
          (omega (arith, roomy, m.same)) (omega (arith, m.enough, m.same)) in
      let made = record packet { bytes = out; length = c.pktlen; pool = pool_id } in
      let (put, h) = enqueue_back null_packet pool packet made rest v full wide in
      (
        c',
        made,
        stored (dropped pool) made,
        rw (make_packet, taken, run, put),
        record {
          has_text = g.same_text ∙ m.has_text;
          some_text = m.some_text;
          short = m.short;
          same = g.same_pktlen ∙ m.same;
          least = m.least;
          most = m.most;
          enough = m.enough;
        },
        record {
          saddr = c'.saddr_cur;
          daddr = c'.daddr_cur;
          source = c'.sport_cur;
          dest = c'.dport_cur;
          framed = g.framed;
          roomy = g.same_length ∙ roomy;
          length_set = m.same;
          pool_set = refl;
        },
        h,
        g.same_nums,
      )

  -- All rounds, with the packets that are left in front of those that are made.
  make_packets-IsStocked :
      (c : SimConfig) (pool : Queue Packet) (left made : List Packet)
      → CanMake fuel pktlen text c
      → IsValid pool
      → contents null_packet pool ≡ left ++ made
      → pool.enqueue_count + arr_length left < 2 ^ 64
      → All (IsRoomy pktlen) left
      → All (IsMade pktlen pool_id) made
      → (c' : SimConfig) × (pool' : Queue Packet) × (make_packets
            (generator_tcp_packet fuel)
            pool_id
            (arr_length left)
            (c, pool)
          ≡ some (returns (c', pool')))
        × IsStocked pktlen pool_id (arr_length left + arr_length made) pool'
        × (c'.pktlen ≡ pktlen)
        × (pool'.enqueue_count ≡ pool.enqueue_count + arr_length left)
        × (thread_nums c' ≡ thread_nums c)
        × (capacity pool' ≡ capacity pool)
  unfolding make_packets
  make_packets-IsStocked c pool [] made m v full wide roomy ok = (
    c,
    pool,
    refl,
    record {
      valid = v;
      stock = ap arr_length full ∙ omega arith;
      made = subst (λ xs. All (IsMade pktlen pool_id) xs) (sym full) ok;
    },
    m.same,
    omega arith,
    refl,
    refl,
  )
  make_packets-IsStocked c pool (packet ∷ left) made m v full wide (room, roomy) ok =
      let (c₁, new, pool₁, run₁, m₁, is_made, h, nums₁) =
        make_packet-IsMade c pool packet (left ++ made) m v full (omega arith) room in
      let (c', pool', run, s, same, count, nums, cap) =
        make_packets-IsStocked c₁ pool₁ left (made ++ new ∷ []) m₁ h.valid
          (h.holds ∙ append_assoc left made (new ∷ [])) (omega (arith, h.taken)) roomy
          (All-append (IsMade pktlen pool_id) made (new ∷ []) ok (is_made, tt)) in
      (
        c',
        pool',
        rw (make_packets, run₁, run),
        record {
          valid = s.valid;
          stock = s.stock ∙ omega (arith, length-append made (new ∷ []));
          made = s.made;
        },
        same,
        omega (arith, count, h.taken),
        nums ∙ nums₁,
        cap ∙ h.same_capacity,
      )

-- The state that the start of `packet_generator` leaves, from a pool that is full of buffers.
pub start_packets-full :
    (fuel pktlen pool_id : ℕ) (text : List ℕ) (s : GeneratorState) (buffers : List Packet)
    → CanMake fuel pktlen text s.config
    → Holds null_packet (2 ^ 10) (2 ^ 10) buffers s.pool
    → arr_length buffers ≡ 2 ^ 10
    → All (IsRoomy pktlen) buffers
    → (c' : SimConfig) × (pool' : Queue Packet) × (start_packets
          (generator_tcp_packet fuel)
          pool_id
          s
        ≡ some (returns (record s { config = c'; pool = pool'; next_thread_id = s.index })))
      × IsStocked pktlen pool_id (2 ^ 10) pool'
      × (c'.pktlen ≡ pktlen)
      × (pool'.enqueue_count ≡ 2 ^ 11)
      × (thread_nums c' ≡ thread_nums s.config)
      × (capacity pool' ≡ 2 ^ 10)
unfolding start_packets
start_packets-full fuel pktlen pool_id text s buffers m h many roomy =
    let (c', pool', run, stocked, same, count, nums, cap) =
      make_packets-IsStocked fuel pktlen text pool_id s.config s.pool buffers [] m h.valid
        (h.holds ∙ sym (append-nil buffers)) (omega (arith, h.taken, many)) roomy tt in
    let all : make_packets (generator_tcp_packet fuel) pool_id (2 ^ 10) (s.config, s.pool)
        ≡ some (returns (c', pool')) =
      ap (λ n. make_packets (generator_tcp_packet fuel) pool_id n (s.config, s.pool)) (sym many)
      ∙ run in
    (
      c',
      pool',
      rw (start_packets, all),
      record {
        valid = stocked.valid;
        stock = stocked.stock ∙ omega (arith, many);
        made = stocked.made;
      },
      same,
      omega (arith, count, h.taken, many),
      nums,
      cap ∙ h.same_capacity,
    )

-- The same from `init_signle_generator`.
pub start_packets-run :
    (fuel pktlen pool_id : ℕ) (text : List ℕ) (global_config : SimConfig) (i : ℕ)
    (node buffers : List Packet) (parsers : List (Queue Packet)) (send_total alive : ℕ)
    → CanMake fuel pktlen text global_config
    → arr_length node ≡ 2 ^ 10
    → arr_length buffers ≡ 2 ^ 10
    → All (IsRoomy pktlen) buffers
    → (c' : SimConfig) × (pool' : Queue Packet) × (start_packets
          (generator_tcp_packet fuel)
          pool_id
          (init_single_generator global_config i node buffers parsers send_total alive)
        ≡ some (
            returns
              (record (init_single_generator global_config i node buffers parsers send_total
                alive) { config = c'; pool = pool'; next_thread_id = i })))
      × IsStocked pktlen pool_id (2 ^ 10) pool'
      × (c'.pktlen ≡ pktlen)
      × (pool'.enqueue_count ≡ 2 ^ 11)
unfolding init_single_generator
start_packets-run fuel pktlen pool_id text g i node buffers parsers send_total alive m cells many
      roomy =
    let h = fill_pool-init null_packet 10 node buffers (omega arith) cells (omega (arith, many)) in
    let (c', pool', run, stocked, same, count, nums, cap) =
      start_packets-full fuel pktlen pool_id text
        (init_single_generator g i node buffers parsers send_total alive) buffers m
        (record {
          valid = h.valid;
          same_capacity = h.same_capacity;
          taken = h.taken ∙ many;
          holds = h.holds;
        })
        many roomy in
    (c', pool', run, stocked, same, count)

-- A generator with 2 ^ 10 buffers of the packet length and two bytes more, a text that is not
-- empty and below 2 ^ 31 characters, a packet length from 54 to 2 ^ 31 - 1 and fuel above it: after
-- `init_signle_generator`, the start of `packet_generator` ends with a pool of 2 ^ 10 packets, each
-- a TCP frame of the configured length that belongs to the pool, and with its own turn.
pub start_packets-IsStocked :
    (fuel pktlen pool_id : ℕ) (text : List ℕ) (global_config : SimConfig) (i : ℕ)
    (node buffers : List Packet) (parsers : List (Queue Packet)) (send_total alive : ℕ)
    → CanMake fuel pktlen text global_config
    → arr_length node ≡ 2 ^ 10
    → arr_length buffers ≡ 2 ^ 10
    → All (IsRoomy pktlen) buffers
    → (s : GeneratorState) × (start_packets
          (generator_tcp_packet fuel)
          pool_id
          (init_single_generator global_config i node buffers parsers send_total alive)
        ≡ some (returns s))
      × IsStocked pktlen pool_id (2 ^ 10) s.pool
      × (s.next_thread_id ≡ i)
unfolding init_single_generator
start_packets-IsStocked fuel pktlen pool_id text g i node buffers parsers send_total alive m cells
      many roomy =
    let (c', pool', run, stocked, same, count) =
      start_packets-run fuel pktlen pool_id text g i node buffers parsers send_total alive m cells
        many roomy in
    (_, run, stocked, refl)
