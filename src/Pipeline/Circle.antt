-- ===== src/Pipeline/Circle.antt =====
-- A generator and a parser around one pool of packets, at a pipeline depth of 2: the rounds of
-- `packet_generator` fill the queue between them, those of `packet_parser_loop` empty it, and the
-- packets go back to the pool.
use freepacket.Base.{
  ℕ, ◌≡◌, sym, ap, ◌∙◌, List, [], ◌∷◌, ◌++◌, map, append_assoc, get_or, set, Outcome, returns,
  spins, overruns, length as arr_length, take, drop, take-append-drop,
}
use mathlib.Core.List.{Perm, perm_append_comm}
use mathlib.Core.List.Perm
use mathlib.Core.Path.{subst}
use freepacket.Memory.{load8}
use freepacket.Config.{SimConfig}
use freepacket.Queue.{Queue}
use freepacket.Queue.Single.{contents}
use freepacket.Parser.{Packet}
use freepacket.Parser.Loop.{ParserState, null_packet, packet_parser_round}
use freepacket.Generator.Loop.{GeneratorState, null_queue, packet_generator_round}

-- The two threads. The queue between them and the pool are those of the generator.
pub record Pair : Type 0 where
  pub generator : GeneratorState
  pub parser : ParserState

abbrev pub ring : Pair → Queue Packet
ring s = get_or s.generator.parsers 0 null_queue

-- What the parser sees of the queue and the pool.
unfoldable pub seen : Pair → ParserState
seen s = record s.parser { queue = ring s; packet_pool = s.generator.pool }

unfoldable pub put_back : ParserState → Pair → Pair
put_back p s = record {
  generator = record s.generator {
    pool = p.packet_pool;
    parsers = set s.generator.parsers 0 p.queue;
  };
  parser = p;
}

-- Whose turn it is.
pub data Turn : Type 0 where
  generator_turn : Turn
  parser_turn : Turn

unfoldable pub turn : SimConfig → Turn → Pair → Outcome Pair
turn config generator_turn s = elim (packet_generator_round config s.generator) [
  | returns g ↦ returns (record s { generator = g })
  | spins ↦ spins
  | overruns ↦ overruns
]
turn config parser_turn s = elim (packet_parser_round config (seen s)) [
  | returns p ↦ returns (put_back p s)
  | spins ↦ spins
  | overruns ↦ overruns
]

-- Rounds in some order. A thread that waits leaves its turn to the other.
unfoldable pub run : SimConfig → List Turn → Pair → Outcome Pair
run config [] s = returns s
run config (t ∷ ts) s = elim (turn config t s) [
  | returns s' ↦ run config ts s'
  | spins ↦ run config ts s
  | overruns ↦ overruns
]

-- What a packet keeps on its way: its address, its length, the size of its buffer, and the bytes
-- with the lengths of its IP and TCP headers.
pub record Tag : Type 0 where
  pub address : ℕ
  pub length : ℕ
  pub size : ℕ
  pub ihl : ℕ
  pub doff : ℕ

abbrev pub tag : Packet → Tag
tag p = record {
  address = p.address;
  length = p.length;
  size = arr_length p.bytes;
  ihl = load8 p.bytes 16;
  doff = load8 p.bytes 48;
}

abbrev pub tags : List Packet → List Tag
tags packets = map tag packets

-- The tags of the packets that the two threads have, from the oldest in the queue on.
abbrev pub circle : Pair → List Tag
circle s = tags (contents null_packet (ring s) ++ contents null_packet s.generator.pool)

-- The packet at the front of the pool has gone to the end of the queue.
pub passed_on :
    (xs ys : List Packet) (packet packet' : Packet)
    → tag packet' ≡ tag packet
    → tags ((xs ++ packet' ∷ []) ++ ys) ≡ tags (xs ++ packet ∷ ys)
passed_on [] ys packet packet' same = ap (λ a. a ∷ tags ys) same
passed_on (x ∷ xs) ys packet packet' same =
    ap (λ rest. tag x ∷ rest) (passed_on xs ys packet packet' same)

-- The front of the queue has gone to the end of the pool.
pub given_back :
    (n : ℕ) (xs ys : List Packet) → Perm (tags (xs ++ ys)) (tags (drop n xs ++ (ys ++ take n xs)))
given_back n xs ys =
    let before : take n xs ++ (drop n xs ++ ys) ≡ xs ++ ys =
      sym (append_assoc (take n xs) (drop n xs) ys) ∙ ap (λ zs. zs ++ ys) (take-append-drop n xs) in
    Perm.map tag (
      subst (λ zs. Perm zs (drop n xs ++ (ys ++ take n xs))) before
        (subst (λ zs. Perm (take n xs ++ (drop n xs ++ ys)) zs)
          (append_assoc (drop n xs) ys (take n xs))
          (perm_append_comm (take n xs) (drop n xs ++ ys))))
