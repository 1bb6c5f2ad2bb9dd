-- ===== src/Pipeline.antt =====
-- The parts together: a packet of packet_generator.c, the flow that packet_parser.c makes of it,
-- and the session of hash.c that the flow is added to.
pub mod Circle
pub mod Sound
pub mod Turns
pub mod Schedule
pub mod Flows
pub mod Fits
pub mod Store
pub mod Trio
pub mod Whole
pub mod Hands
pub mod Handed
pub mod Returned
pub mod Moves
pub mod Started
pub mod Begun
pub mod Full
pub mod Rounds
pub mod Deep
use freepacket.Base.{
  ℕ, zero, suc, ◌+◌, ◌-◌, ◌%◌, ◌^◌, ◌≤◌, ◌<◌, ◌≡◌, refl, sym, ap, ap₂, ◌∙◌, List, [], ◌∷◌, some,
  returns, arith, length, get_or, take, drop, length-take, length-drop, All-get_or,
}
use native.Mathlib.Nat.{mod-lt}
use freepacket.Config.{SimConfig}
use freepacket.Queue.{capacity}
use freepacket.Generator.{generator_tcp_packet}
use freepacket.Generator.RoundTrip.{generator_tcp_packet-IsGenerated, make_flow_item_tcp-frame}
use freepacket.Generator.Filled.{CanMake}
use freepacket.Parser.{Packet, FlowItem, make_flow_item_tcp}
use freepacket.Session.{HashTable, empty_bucket, payload_of, hash_add_item}
use freepacket.Session.Table.{BucketOk}
use freepacket.Session.Added.{add_bytes, CanAdd}
use freepacket.Session.Refine.{TableOk, view, bucket_of, hash_add_item-refines}

-- `n` bytes of the text over and over, from place `k` on.
unfoldable pub repeated : List ℕ → ℕ → ℕ → List ℕ
repeated text k zero = []
repeated text k (suc n) = get_or text (k % length text) 0 ∷ repeated text (k + 1) n

length-repeated : (text : List ℕ) (k n : ℕ) → length (repeated text k n) ≡ n
unfolding repeated
length-repeated text k zero = refl
length-repeated text k (suc n) = ap suc (length-repeated text (k + 1) n)

-- A list is such a text when its bytes are.
eq-repeated :
    (text xs : List ℕ) (k n : ℕ)
    → length xs ≡ n
    → ((j : ℕ) → j < n → get_or xs j 0 ≡ get_or text ((k + j) % length text) 0)
    → xs ≡ repeated text k n
unfolding repeated
eq-repeated text [] k zero size h = refl
eq-repeated text [] k (suc n) size h = absurd (omega (arith, size))
eq-repeated text (x ∷ xs) k zero size h = absurd (omega (arith, size))
eq-repeated text (x ∷ xs) k (suc n) size h =
    ap₂ (λ y ys. y ∷ ys)
      (h 0 (omega arith) ∙ ap (λ i. get_or text (i % length text) 0) (omega arith))
      (eq-repeated text xs (k + 1) n (omega (arith, size))
        (λ j lt. h (suc j) (omega arith) ∙ ap (λ i. get_or text (i % length text) 0) (omega arith)))

get_or-take : (xs : List ℕ) (n k : ℕ) → k < n → get_or (take n xs) k 0 ≡ get_or xs k 0
get_or-take xs zero k h = absurd (omega arith)
get_or-take [] (suc n) k h = refl
get_or-take (x ∷ xs) (suc n) zero h = refl
get_or-take (x ∷ xs) (suc n) (suc k) h = get_or-take xs n k (omega arith)

get_or-drop : (xs : List ℕ) (n k : ℕ) → get_or (drop n xs) k 0 ≡ get_or xs (n + k) 0
get_or-drop xs zero k = ap (λ i. get_or xs i 0) (omega arith)
get_or-drop [] (suc n) k = refl
get_or-drop (x ∷ xs) (suc n) k =
    get_or-drop xs n k
    ∙ ap (λ i. get_or (x ∷ xs) i 0) (let e : suc (n + k) ≡ suc n + k = omega arith in e)

-- The packet that `make_all_packet` fills in, in its buffer.
abbrev pub packet_of : ℕ → ℕ → ℕ → List ℕ → Packet
packet_of address pool_id pktlen bytes = record {
  address = address;
  bytes = bytes;
  length = pktlen;
  pool = pool_id;
}

-- The flow of a generated packet.
pub record IsFlow (pktlen : ℕ) (text : List ℕ) (flow : FlowItem) : Type 0 where
  pub tcp : flow.protocol ≡ 6
  pub payload_length : flow.payload_len ≡ pktlen - 54
  pub payload : payload_of flow ≡ repeated text 0 (pktlen - 54)

module _ (fuel pktlen : ℕ) (text : List ℕ) where
  pub generated-IsFlow :
      (address pool_id : ℕ) (buf : List ℕ) (c : SimConfig) (item : FlowItem)
      → CanMake fuel pktlen text c
      → length buf ≡ pktlen + 2
      → (r : List ℕ × SimConfig) × (generator_tcp_packet fuel buf c ≡ some r)
        × IsFlow pktlen text (make_flow_item_tcp item (packet_of address pool_id pktlen r.0))
  generated-IsFlow address pool_id buf c item m size =
      let (r, run, g) =
        generator_tcp_packet-IsGenerated fuel buf text c m.has_text m.some_text m.short
          (omega (arith, m.least, m.same)) (omega (arith, m.most, m.same))
          (omega (arith, size, m.same)) (omega (arith, m.enough, m.same)) in
      let p = packet_of address pool_id pktlen r.0 in
      let flow_lem =
        make_flow_item_tcp-frame item p r.1.saddr_cur r.1.daddr_cur r.1.sport_cur r.1.dport_cur
          g.framed m.least (omega (arith, m.most)) in
      let whole : length (take (pktlen - 54) (drop 56 r.0)) ≡ pktlen - 54 = omega (
        arith,
        length-take (pktlen - 54) (drop 56 r.0),
        length-drop 56 r.0,
        g.same_length,
        size,
        m.least,
      ) in
      (
        r,
        run,
        record {
          tcp = ap (λ (f : FlowItem). f.protocol) flow_lem;
          payload_length = ap (λ (f : FlowItem). f.payload_len) flow_lem;
          payload =
              ap payload_of flow_lem
              ∙ eq-repeated text (take (pktlen - 54) (drop 56 r.0)) 0 (pktlen - 54) whole (λ j lt.
                get_or-take (drop 56 r.0) (pktlen - 54) j lt
                ∙ get_or-drop r.0 56 j
                ∙ g.payload j (omega (arith, m.same))
                ∙ ap (λ i. get_or text (i % length text) 0) (omega arith));
        },
      )

-- A node free in the pool of sessions, room to give back those of the bucket, and fewer than
-- 2 ^ 32 - 1 of them.
pub record HasSpace (ht : HashTable) (key : ℕ) : Type 0 where
  pub some_free : ht.session_pool.dequeue_count < ht.session_pool.enqueue_count
  pub room :
      ht.session_pool.enqueue_count - ht.session_pool.dequeue_count + length (bucket_of ht key).list
      ≤ capacity ht.session_pool
  pub counter : ht.session_pool.enqueue_count + 1 < 2 ^ 64
  pub few : length (bucket_of ht key).list + 1 < 2 ^ 32

flow-CanAdd :
    (limit pktlen : ℕ) (text : List ℕ) (flow : FlowItem) (ht : HashTable) (key : ℕ)
    → IsFlow pktlen text flow
    → TableOk limit ht
    → HasSpace ht key
    → pktlen - 54 ≤ limit
    → CanAdd limit flow (bucket_of ht key) ht.session_pool
flow-CanAdd limit pktlen text flow ht key f ok space fits = record {
  bucket_ok =
      All-get_or (BucketOk limit) ht.buckets (key % ht.num_buckets) empty_bucket ok.buckets_ok
        (omega (arith, ok.cells, mod-lt key ok.some_buckets));
  pool_ok = ok.pool_ok;
  room = space.room;
  counter = space.counter;
  few = space.few;
  inside = ap length f.payload ∙ length-repeated text 0 (pktlen - 54) ∙ sym f.payload_length;
  fits = omega (arith, f.payload_length);
}

-- From the generator to the session: with a text that is not empty, a packet length from 54 to
-- 2 ^ 31 - 1 and fuel above it, a buffer for it, and a sound table with space whose buffers hold
-- the payload and less than 2 ^ 31 bytes, `generator_tcp_packet` makes a packet of which the parser
-- makes a flow that `hash_add_item` adds: the table stays sound, and the bytes collected for the
-- flow are those it had followed by the configured text over and over, or the session ends when
-- they would fill the buffer.
pub generated_packet-collected :
    (fuel pktlen : ℕ) (text : List ℕ) (address pool_id : ℕ) (buf : List ℕ) (c : SimConfig)
    (item : FlowItem) (limit : ℕ) (config : SimConfig) (now : ℕ) (ht : HashTable) (key : ℕ)
    → CanMake fuel pktlen text c
    → length buf ≡ pktlen + 2
    → limit < 2 ^ 31
    → config.manager_buffer_size ≡ limit
    → pktlen - 54 ≤ limit
    → TableOk limit ht
    → HasSpace ht key
    → (r : List ℕ × SimConfig) × (ht' : HashTable) × (generator_tcp_packet fuel buf c ≡ some r)
      × (let flow = make_flow_item_tcp item (packet_of address pool_id pktlen r.0) in
          (hash_add_item config now ht key flow ≡ returns ht')
          × TableOk limit ht'
          × (view ht' key flow
              ≡ add_bytes limit (view ht key flow) (repeated text 0 (pktlen - 54))))
generated_packet-collected fuel pktlen text address pool_id buf c item limit config now ht key m
      size small same fits ok space =
    let (r, made, f) = generated-IsFlow fuel pktlen text address pool_id buf c item m size in
    let flow = make_flow_item_tcp item (packet_of address pool_id pktlen r.0) in
    let (ht', added, ok', bytes, others) =
      hash_add_item-refines limit config now ht key flow small same ok
        (flow-CanAdd limit pktlen text flow ht key f ok space fits) space.some_free in
    (r, ht', made, (added, ok', bytes ∙ ap (λ xs. add_bytes limit (view ht key flow) xs) f.payload))
