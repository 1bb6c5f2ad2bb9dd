-- ===== src/Generator/Steady.antt =====
-- The loop of `packet_generator` when the pipeline ends at the generator, so that every packet goes
-- back to the pool.
use freepacket.Base.{
  sign_extend, sign_extend-small, ℕ, zero, suc, ◌+◌, ◌*◌, ◌^◌, ◌≤◌, ◌<◌, ◌≡◌, refl, sym, ap, ◌∙◌,
  List, [], ◌∷◌, some, false, returns, length as arr_length, length-append, All, All-append, arith,
  int_lt, u64,
}
use mathlib.Core.Path.{subst}
use freepacket.Config.{SimConfig}
use freepacket.Queue.{Queue}
use freepacket.Queue.Single.{IsValid, contents, stored, dropped}
use freepacket.Queue.Rotate.{dequeue_front, enqueue_back}
use freepacket.Parser.{Packet}
use freepacket.Parser.Loop.{null_packet}
use freepacket.Generator.{refresh, generator_tcp_packet}
use freepacket.Generator.Refresh.{refresh-IsTcpFrame}
use freepacket.Generator.Loop.{
  GeneratorState, count_packet, send_packet, packet_generator_round, packet_generator,
}
use freepacket.Generator.Start.{init_single_generator, run_generator}
use freepacket.Generator.Filled.{IsRoomy, IsMade, IsStocked, CanMake, start_packets-run}

-- What a number of rounds leaves: a full pool of TCP frames, and the bytes counted.
pub record IsSteady (pktlen pool_id n rounds : ℕ) (s s' : GeneratorState) : Type 0 where
  pub stocked : IsStocked pktlen pool_id n s'.pool
  pub same_pktlen : s'.config.pktlen ≡ s.config.pktlen
  pub stored_count : s'.pool.enqueue_count ≡ s.pool.enqueue_count + rounds
  pub counted : s'.total_send_byte ≡ u64 (s.total_send_byte + rounds * pktlen)

refresh_config : (buf : List ℕ) (c : SimConfig) → (refresh buf c).1.pktlen ≡ c.pktlen
unfolding refresh
refresh_config buf c = refl

module _ (pktlen pool_id : ℕ) (least : 54 ≤ pktlen) (most : pktlen < 2 ^ 31) where
  refreshed-IsMade :
      (packet : Packet) (c : SimConfig)
      → IsMade pktlen pool_id packet
      → IsMade pktlen pool_id (record packet { bytes = (refresh packet.bytes c).0 })
  refreshed-IsMade packet c m =
      let (framed, same, payload) =
        refresh-IsTcpFrame packet.bytes c m.saddr m.daddr m.source m.dest (omega (arith, m.roomy))
          m.framed in
      let c' = (refresh packet.bytes c).1 in
      record {
        saddr = c'.saddr_cur;
        daddr = c'.daddr_cur;
        source = c'.sport_cur;
        dest = c'.dport_cur;
        framed = framed;
        roomy = same ∙ m.roomy;
        length_set = m.length_set;
        pool_set = m.pool_set;
      }

  module _ (global_config : SimConfig) (depth : int_lt 1 global_config.pipe_depth ≡ false) where
    -- One round.
    round-IsSteady :
        (s : GeneratorState) (packet : Packet) (rest : List Packet)
        → IsValid s.pool
        → contents null_packet s.pool ≡ packet ∷ rest
        → All (IsMade pktlen pool_id) (packet ∷ rest)
        → s.config.pktlen ≡ pktlen
        → s.pool.enqueue_count + 1 < 2 ^ 64
        → (s' : GeneratorState) × (packet_generator_round global_config s ≡ returns s')
          × IsSteady pktlen pool_id (suc (arr_length rest)) 1 s s'
    unfolding packet_generator_round send_packet count_packet
    round-IsSteady s packet rest v full (made, ok) same wide =
        let c = (refresh packet.bytes s.config).1 in
        let p = record packet { bytes = (refresh packet.bytes s.config).0 } in
        let (taken, v', rest_lem, count) = dequeue_front null_packet s.pool packet rest v full in
        let (put, h) = enqueue_back null_packet s.pool packet p rest v full wide in
        let small : sign_extend c.pktlen ≡ pktlen =
          ap sign_extend (refresh_config packet.bytes s.config ∙ same)
          ∙ sign_extend-small pktlen most in
        (
          count_packet (record s { config = c; pool = stored (dropped s.pool) p }),
          rw (packet_generator_round, taken, send_packet, depth, put),
          record {
            stocked = record {
              valid = h.valid;
              stock = ap arr_length h.holds ∙ omega (arith, length-append rest (p ∷ []));
              made =
                  subst (λ xs. All (IsMade pktlen pool_id) xs) (sym h.holds)
                    (All-append (IsMade pktlen pool_id) rest (p ∷ []) ok
                      (refreshed-IsMade packet s.config made, tt));
            };
            same_pktlen = refresh_config packet.bytes s.config;
            stored_count = h.taken;
            counted = ap (λ n. u64 (s.total_send_byte + n)) (small ∙ omega arith);
          },
        )

    -- Any number of rounds, on a pool that is not empty.
    rounds-IsSteady :
        (m rounds : ℕ) (s : GeneratorState) (xs : List Packet)
        → contents null_packet s.pool ≡ xs
        → IsStocked pktlen pool_id (suc m) s.pool
        → s.config.pktlen ≡ pktlen
        → s.pool.enqueue_count + rounds < 2 ^ 64
        → s.total_send_byte < 2 ^ 64
        → (s' : GeneratorState) × (packet_generator global_config rounds s ≡ returns s')
          × IsSteady pktlen pool_id (suc m) rounds s s'
    unfolding packet_generator
    rounds-IsSteady m zero s xs full k same wide small = (
      s,
      refl,
      record { stocked = k; same_pktlen = refl; stored_count = omega arith; counted = omega arith },
    )
    rounds-IsSteady m (suc rounds) s [] full k same wide small =
        absurd (omega (arith, ap arr_length full, k.stock))
    rounds-IsSteady m (suc rounds) s (packet ∷ rest) full k same wide small =
        let (s₁, run₁, h) =
          round-IsSteady s packet rest k.valid full
            (subst (λ ys. All (IsMade pktlen pool_id) ys) full k.made) same (omega arith) in
        let size : suc (arr_length rest) ≡ suc m = sym (ap arr_length full) ∙ k.stock in
        let (s', run, t) =
          rounds-IsSteady m rounds s₁ (contents null_packet s₁.pool) refl
            (record {
              valid = h.stocked.valid;
              stock = h.stocked.stock ∙ size;
              made = h.stocked.made;
            })
            (h.same_pktlen ∙ same) (omega (arith, h.stored_count)) (omega (arith, h.counted)) in
        let more : suc rounds * pktlen ≡ 1 * pktlen + rounds * pktlen = grind arith in
        (
          s',
          rw (packet_generator, run₁, run),
          record {
            stocked = t.stocked;
            same_pktlen = t.same_pktlen ∙ h.same_pktlen;
            stored_count = omega (arith, t.stored_count, h.stored_count);
            counted = omega (arith, t.counted, h.counted, more);
          },
        )

-- When the pipeline ends at the generator, a generator that `init_signle_generator` leaves, with
-- 2 ^ 10 buffers of the packet length and two bytes more, a text that is not empty and below
-- 2 ^ 31 characters, a packet length from 54 to 2 ^ 31 - 1 and fuel above it, never waits: the run
-- of `packet_generator` with TCP packets returns for any number of rounds below 2 ^ 63, the pool
-- then has 2 ^ 10 TCP frames of the configured length, and the bytes counted are the rounds times
-- that length, modulo 2 ^ 64.
pub run_generator-IsSteady :
    (fuel pktlen pool_id : ℕ) (text : List ℕ) (global_config : SimConfig) (i : ℕ)
    (node buffers : List Packet) (parsers : List (Queue Packet)) (send_total alive rounds : ℕ)
    → CanMake fuel pktlen text global_config
    → int_lt 1 global_config.pipe_depth ≡ false
    → arr_length node ≡ 2 ^ 10
    → arr_length buffers ≡ 2 ^ 10
    → All (IsRoomy pktlen) buffers
    → rounds < 2 ^ 63
    → (s : GeneratorState) × (run_generator global_config
          (generator_tcp_packet fuel)
          pool_id
          rounds
          (init_single_generator global_config i node buffers parsers send_total alive)
        ≡ some (returns s))
      × IsStocked pktlen pool_id (2 ^ 10) s.pool
      × (s.total_send_byte ≡ u64 (rounds * pktlen))
unfolding run_generator init_single_generator
run_generator-IsSteady fuel pktlen pool_id text g i node buffers parsers send_total alive rounds m
      depth cells many roomy few =
    let (c', pool', started, stocked, same, count) =
      start_packets-run fuel pktlen pool_id text g i node buffers parsers send_total alive m cells
        many roomy in
    let s₀ = record (init_single_generator g i node buffers parsers send_total alive) {
      config = c';
      pool = pool';
      next_thread_id = i;
    } in
    let (s, run, t) =
      rounds-IsSteady pktlen pool_id m.least m.most g depth 1023 rounds s₀
        (contents null_packet pool') refl stocked same (omega (arith, count)) (omega arith) in
    (
      s,
      rw (run_generator, started) (ap some run),
      t.stocked,
      t.counted ∙ ap (λ n. u64 n) (omega arith),
    )
