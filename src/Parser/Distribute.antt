-- ===== src/Parser/Distribute.antt =====
-- The loop of packet_parser.c that hands the flows of a batch to the managers.

use freepacket.Base.{
  returns, ℕ, suc, ◌+◌, ◌-◌, ◌^◌, ◌≤◌, ◌<◌, ◌≡◌, refl, sym, ap, ◌∙◌, List, [], ◌∷◌, ◌++◌,
  append-nil, append_assoc, true, arith, length as arr_length, length-set, All, All-get_or, All-set,
  get_or, set, get_or-set_self, get_or-set_ne, Bool-cases, inl, inr, ltb, lt→ltb, ◌==◌, ==_iff,
  eq→==, u32, if◌then◌else◌,
}
use freepacket.Queue.{Queue, capacity}
use freepacket.Queue.Single.{IsValid, contents, stored, enqueue_room, stored-Holds}
use freepacket.Parser.{FlowItem, hash_index}
use freepacket.Parser.Direction.{hash_index-lt}
use freepacket.Parser.Loop.{Managers, view_size, null_flow, null_queue, send_flow, send_flows}

-- The flows of a batch that hash to one manager, in order.
unfoldable pub routed : ℕ → ℕ → List FlowItem → List FlowItem
routed numbers k [] = []
routed numbers k (flow ∷ flows) =
    let rest = routed numbers k flows in if hash_index flow numbers == k then flow ∷ rest else rest

-- A queue that has room for `n` more.
pub record HasRoom (n : ℕ) (q : Queue FlowItem) : Type 0 where
  pub valid : IsValid q
  pub room : q.enqueue_count - q.dequeue_count + n ≤ capacity q
  pub counter : q.enqueue_count + n < 2 ^ 64

-- Managers that a batch of `n` flows can go to.
pub record CanSend (n : ℕ) (m : Managers) : Type 0 where
  pub some_managers : 0 < m.numbers
  pub counted : m.numbers ≤ view_size
  pub cells : arr_length m.queues ≡ m.numbers
  pub rooms : All (HasRoom n) m.queues

HasRoom-less : (n : ℕ) (q : Queue FlowItem) → HasRoom (suc n) q → HasRoom n q
HasRoom-less n q h = record {
  valid = h.valid;
  room = omega (arith, h.room);
  counter = omega (arith, h.counter);
}

rooms-less : (n : ℕ) (qs : List (Queue FlowItem)) → All (HasRoom (suc n)) qs → All (HasRoom n) qs
rooms-less n [] h = tt
rooms-less n (q ∷ qs) (h, hs) = (HasRoom-less n q h, rooms-less n qs hs)

abbrev content_at : Managers → ℕ → List FlowItem
content_at m k = contents null_flow (get_or m.queues k null_queue)

-- What one flow does.
record IsSent (n : ℕ) (flow : FlowItem) (m m' : Managers) : Type 0 where
  ready : CanSend n m'
  same_numbers : m'.numbers ≡ m.numbers
  at : (k : ℕ) → content_at m' k ≡ content_at m k ++ routed m.numbers k (flow ∷ [])

room_lem :
    (n : ℕ) (q : Queue FlowItem) (flow : FlowItem)
    → HasRoom (suc n) q
    → IsValid (stored q flow)
    → HasRoom n (stored q flow)
unfolding stored
room_lem n q flow h v = record {
  valid = v;
  room = omega (arith, h.room, (h.valid).ordered);
  counter = omega (arith, h.counter);
}

at_lem :
    (flow : FlowItem) (m : Managers)
    → let i = hash_index flow m.numbers in
      i < arr_length m.queues
      → contents null_flow (stored (get_or m.queues i null_queue) flow)
        ≡ content_at m i ++ flow ∷ []
      → (k : ℕ)
      → contents null_flow
          (get_or (set m.queues i (stored (get_or m.queues i null_queue) flow)) k null_queue)
        ≡ content_at m k ++ routed m.numbers k (flow ∷ [])
unfolding routed
at_lem flow m inside holds k =
    let i = hash_index flow m.numbers in
    let q = stored (get_or m.queues i null_queue) flow in
    elim (Bool-cases (i == k)) [
      | inl e ↦
          let hit = (==_iff i k).0 e in
          rw e (
            ap (λ j. contents null_flow (get_or (set m.queues i q) j null_queue)) (sym hit)
            ∙ ap (contents null_flow) (get_or-set_self m.queues i q null_queue inside)
            ∙ holds
            ∙ ap (λ j. content_at m j ++ flow ∷ []) hit)
      | inr e ↦ rw e (
          ap (contents null_flow)
            (get_or-set_ne m.queues i k q null_queue (λ h. absurd (ground (arith, eq→== _ _ h))))
          ∙ sym (append-nil (content_at m k)))
    ]

send_flow_lem :
    (n : ℕ) (flow : FlowItem) (m : Managers)
    → CanSend (suc n) m
    → (m' : Managers) × (send_flow flow m ≡ returns m') × IsSent n flow m m'
unfolding send_flow
send_flow_lem n flow m c =
    let index = hash_index flow m.numbers in
    let below = hash_index-lt flow m.numbers c.some_managers in
    let inside : index < arr_length m.queues = omega (arith, c.cells) in
    let q = get_or m.queues index null_queue in
    let h = All-get_or (HasRoom (suc n)) m.queues index null_queue c.rooms inside in
    let e =
      enqueue_room null_flow h.valid flow (omega (arith, h.room)) (omega (arith, h.counter)) in
    let s =
      stored-Holds null_flow h.valid flow (omega (arith, h.room)) (omega (arith, h.counter)) in
    let small : ltb index view_size ≡ true = lt→ltb _ _ (omega (arith, c.counted)) in
    let m' : Managers = record m {
      queues = set m.queues index (stored q flow);
      ghash_view = set m.ghash_view index (u32 (get_or m.ghash_view index 0 + 1));
    } in
    (
      m',
      rw (small, e),
      record {
        ready = record {
          some_managers = c.some_managers;
          counted = c.counted;
          cells = length-set m.queues index (stored q flow) ∙ c.cells;
          rooms =
              All-set (HasRoom n) m.queues index (stored q flow) (rooms-less n m.queues c.rooms)
                (room_lem n q flow h s.valid);
        };
        same_numbers = refl;
        at = at_lem flow m inside s.holds;
      },
    )

routed-cons :
    (numbers k : ℕ) (flow : FlowItem) (flows : List FlowItem)
    → routed numbers k (flow ∷ []) ++ routed numbers k flows ≡ routed numbers k (flow ∷ flows)
unfolding routed
routed-cons numbers k flow flows = elim (Bool-cases (hash_index flow numbers == k)) [
  | inl e ↦ rw e
  | inr e ↦ rw e
]

-- With one to 36 managers whose queues have room for the batch, `packet_parser_loop` hands out all
-- its flows without waiting, and the queue of each manager then holds what it held, followed by
-- the flows that hash to it, in their order: none is lost, doubled or sent elsewhere.
pub send_flows-routed :
    (flows : List FlowItem) (m : Managers)
    → CanSend (arr_length flows) m
    → (m' : Managers) × (send_flows flows m ≡ returns m')
      × ((k : ℕ)
          → contents null_flow (get_or m'.queues k null_queue)
            ≡ contents null_flow (get_or m.queues k null_queue) ++ routed m.numbers k flows)
unfolding send_flows
send_flows-routed [] m c = (m, refl, λ k. unfold routed in sym (append-nil (content_at m k)))
send_flows-routed (flow ∷ flows) m c =
    let (m₁, run₁, s) = send_flow_lem (arr_length flows) flow m c in
    let (m', run, at) = send_flows-routed flows m₁ s.ready in
    (
      m',
      rw (send_flows, run₁, run),
      λ k.
          at k
          ∙ ap (λ numbers. content_at m₁ k ++ routed numbers k flows) s.same_numbers
          ∙ ap (λ xs. xs ++ routed m.numbers k flows) (s.at k)
          ∙ append_assoc (content_at m k) (routed m.numbers k (flow ∷ []))
              (routed m.numbers k flows)
          ∙ ap (λ xs. content_at m k ++ xs) (routed-cons m.numbers k flow flows),
    )
