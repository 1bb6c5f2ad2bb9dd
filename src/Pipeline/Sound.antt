-- ===== src/Pipeline/Sound.antt =====
-- The invariant of a generator and a parser around one pool.
use freepacket.Base.{
  ℕ, suc, ◌+◌, ◌*◌, ◌-◌, ◌^◌, ◌≤◌, ◌<◌, ◌≡◌, refl, sym, ap, ap₂, ◌∙◌, List, [], ◌∷◌, ◌++◌, length,
  get_or, arith, arith, length-append,
}
use mathlib.Core.List.{Perm}
use freepacket.Memory.{load8}
use freepacket.Memory.Frame.{frame}
use freepacket.Config.{SimConfig}
use freepacket.Queue.{Queue, capacity, slot}
use freepacket.Queue.Single.{IsValid, contents, stored, dropped, stored-Holds, dropped-Holds}
use freepacket.Queue.Fill.{length-contents}
use freepacket.Parser.{Packet}
use freepacket.Parser.Loop.{null_packet, batch}
use freepacket.Generator.{refresh, next_thread}
use freepacket.Pipeline.Circle.{Pair, Turn, generator_turn, parser_turn, ring, circle, tag}

-- The number of objects in a queue.
abbrev pub held {ℓ} : {A : Type ℓ} → Queue A → ℕ
held q = q.enqueue_count - q.dequeue_count

-- A valid queue that can take all `all` packets, with a counter that `n` more turns leave within
-- 32 bits.
pub record IsPlace (n all : ℕ) (q : Queue Packet) : Type 0 where
  pub valid : IsValid q
  pub roomy : all ≤ capacity q
  pub counter : q.enqueue_count + n * batch < 2 ^ 32

-- One generator and one parser, with `now` of the `all` packets between them.
pub record IsSound (n all now : ℕ) (s : Pair) : Type 0 where
  pub pool : IsPlace n all s.generator.pool
  pub queue : IsPlace n all (ring s)
  pub total : held s.generator.pool + held (ring s) ≡ now
  pub within : now ≤ all
  pub one_parser : length s.generator.parsers ≡ 1
  pub same_index : s.generator.index ≡ 0
  pub same_turn : s.generator.next_thread_id ≡ 0
  pub nums : (s.generator.config.generator_nums ≡ 1) × (s.generator.config.parser_nums ≡ 1)

-- What a turn finds when it waits.
abbrev pub Idle : Turn → Pair → Type 0
Idle generator_turn s = held s.generator.pool ≡ 0
Idle parser_turn s = held (ring s) < batch

-- The packets are where they were or have moved on, and none is lost or doubled.
pub record IsMoved (n all now : ℕ) (s s' : Pair) : Type 0 where
  pub sound : IsSound n all now s'
  pub same : Perm (circle s) (circle s')

pub refresh_nums :
    (buf : List ℕ) (c : SimConfig)
    → ((refresh buf c).1.generator_nums ≡ c.generator_nums)
      × ((refresh buf c).1.parser_nums ≡ c.parser_nums)
unfolding refresh
refresh_nums buf c = (refl, refl)

-- The loop of the generator changes no length of a packet.
pub tag-refresh :
    (p : Packet) (c : SimConfig) → tag (record p { bytes = (refresh p.bytes c).0 }) ≡ tag p
unfolding refresh
tag-refresh p c =
    let buf' = (refresh p.bytes c).0 in
    let size : length buf' ≡ length p.bytes = omega frame in
    let ihl : load8 buf' 16 ≡ load8 p.bytes 16 = omega frame in
    let doff : load8 buf' 48 ≡ load8 p.bytes 48 = omega frame in
    ap₂
      (λ (n : ℕ) (bytes : ℕ × ℕ). record {
        address = p.address;
        length = p.length;
        size = n;
        ihl = bytes.0;
        doff = bytes.1;
      })
      size (ap₂ (λ a b. (a, b)) ihl doff)

pub next_thread_lem : next_thread 1 1 0 0 ≡ 0
unfolding next_thread
next_thread_lem = refl

module _ (n all : ℕ) where
  pub IsPlace-less : (q : Queue Packet) → IsPlace (suc n) all q → IsPlace n all q
  IsPlace-less q h = record { valid = h.valid; roomy = h.roomy; counter = omega (arith, h.counter) }

  pub stored-IsPlace :
      (q : Queue Packet) (packet : Packet)
      → IsPlace (suc n) all q
      → held q < all
      → IsPlace n all (stored q packet)
        × (held (stored q packet) ≡ held q + 1)
        × (contents null_packet (stored q packet) ≡ contents null_packet q ++ packet ∷ [])
  stored-IsPlace q packet h room =
      let t =
        stored-Holds null_packet h.valid packet (omega (arith, h.roomy))
          (omega (arith, h.counter)) in
      (
        record {
          valid = t.valid;
          roomy = omega (arith, h.roomy, t.same_capacity);
          counter = omega (arith, h.counter, t.taken);
        },
        sym (length-contents null_packet (stored q packet))
            ∙ ap length t.holds
            ∙ length-append (contents null_packet q) (packet ∷ [])
            ∙ ap (λ k. k + 1) (length-contents null_packet q),
        t.holds,
      )

  pub dropped-IsPlace :
      (q : Queue Packet)
      → IsPlace (suc n) all q
      → 0 < held q
      → IsPlace n all (dropped q)
        × (held (dropped q) + 1 ≡ held q)
        × (contents null_packet q
            ≡ get_or q.node (slot q q.dequeue_count) null_packet ∷ contents null_packet (dropped q))
  unfolding dropped
  dropped-IsPlace q h some_there =
      let (taken, valid) = dropped-Holds null_packet h.valid (omega arith) in
      (
        record { valid = valid; roomy = h.roomy; counter = omega (arith, h.counter) },
        omega arith,
        taken,
      )

  pub IsSound-less : (now : ℕ) (s : Pair) → IsSound (suc n) all now s → IsSound n all now s
  IsSound-less now s h = record {
    pool = IsPlace-less s.generator.pool h.pool;
    queue = IsPlace-less (ring s) h.queue;
    total = h.total;
    within = h.within;
    one_parser = h.one_parser;
    same_index = h.same_index;
    same_turn = h.same_turn;
    nums = h.nums;
  }
