-- ===== src/Pipeline/Store.antt =====
-- What `packet_parser_loop` does to the queues of the managers, as one store of flows.
use freepacket.Base.{
  ℕ, suc, ◌+◌, ◌^◌, ◌≤◌, ◌<◌, ◌≡◌, refl, ap, ◌∙◌, List, [], ◌∷◌, ◌++◌, length, length-append,
  length-set, get_or, set, All, All-get_or, All-set, returns, lt→ltb, ltb, true, u32, arith,
}
use mathlib.Core.List.{Perm, perm_middle}
use mathlib.Core.List.Perm
use freepacket.Queue.{Queue, capacity}
use freepacket.Queue.Single.{IsValid, contents, stored, enqueue_room, stored-Holds}
use freepacket.Queue.Fill.{length-contents}
use freepacket.Parser.{FlowItem, hash_index}
use freepacket.Parser.Direction.{hash_index-lt}
use freepacket.Parser.Loop.{Managers, view_size, null_flow, null_queue, send_flow, send_flows}
use freepacket.Pipeline.Sound.{held}
use freepacket.Pipeline.Flows.{in_queues, before, after, in_queues-get_or, store_more}

-- A valid queue that can take all `all` flows, with a counter that `b` more leave within 32 bits.
pub record IsStore (b all : ℕ) (q : Queue FlowItem) : Type 0 where
  pub valid : IsValid q
  pub roomy : all ≤ capacity q
  pub counter : q.enqueue_count + b < 2 ^ 32

-- One to 36 managers, whose queues have room for `k` more flows of `all`.
pub record IsReadyFor (b all k : ℕ) (m : Managers) : Type 0 where
  pub some_managers : 0 < m.numbers
  pub counted : m.numbers ≤ view_size
  pub cells : length m.queues ≡ m.numbers
  pub stores : All (IsStore (k + b) all) m.queues
  pub fits : length (in_queues m.queues) + k ≤ all

-- No flow is lost or doubled on the way into the queues.
pub record IsStored (b all : ℕ) (flows : List FlowItem) (m m' : Managers) : Type 0 where
  pub ready : IsReadyFor b all 0 m'
  pub same_numbers : m'.numbers ≡ m.numbers
  pub same : Perm (in_queues m'.queues) (flows ++ in_queues m.queues)
  pub more : length (in_queues m'.queues) ≡ length flows + length (in_queues m.queues)

IsStore-less : (b c all : ℕ) (q : Queue FlowItem) → c ≤ b → IsStore b all q → IsStore c all q
IsStore-less b c all q le h = record {
  valid = h.valid;
  roomy = h.roomy;
  counter = omega (arith, h.counter);
}

pub stores-less :
    (b c all : ℕ) (qs : List (Queue FlowItem))
    → c ≤ b
    → All (IsStore b all) qs
    → All (IsStore c all) qs
stores-less b c all [] le h = tt
stores-less b c all (q ∷ qs) le (h, hs) =
    (IsStore-less b c all q le h, stores-less b c all qs le hs)

-- One queue holds no more than the store.
pub held-in_queues :
    (qs : List (Queue FlowItem)) (k : ℕ)
    → k < length qs
    → held (get_or qs k null_queue) ≤ length (in_queues qs)
held-in_queues qs k h =
    let q = get_or qs k null_queue in
    omega (
      arith,
      ap length (in_queues-get_or qs k h),
      length-append (before qs k) (contents null_flow q ++ after qs k),
      length-append (contents null_flow q) (after qs k),
      length-contents null_flow q,
    )

stored_count :
    (q : Queue FlowItem) (flow : FlowItem) → (stored q flow).enqueue_count ≡ q.enqueue_count + 1
unfolding stored
stored_count q flow = refl

send_flow-stores :
    (b all k : ℕ) (flow : FlowItem) (m : Managers)
    → IsReadyFor b all (suc k) m
    → (m' : Managers) × (send_flow flow m ≡ returns m')
      × IsReadyFor b all k m'
      × (m'.numbers ≡ m.numbers)
      × Perm (in_queues m'.queues) (flow ∷ in_queues m.queues)
      × (length (in_queues m'.queues) ≡ suc (length (in_queues m.queues)))
unfolding send_flow
send_flow-stores b all k flow m r =
    let i = hash_index flow m.numbers in
    let inside : i < length m.queues =
      omega (arith, hash_index-lt flow m.numbers r.some_managers, r.cells) in
    let small : ltb i view_size ≡ true = lt→ltb _ _ (omega (arith, r.cells, r.counted)) in
    let q = get_or m.queues i null_queue in
    let s = All-get_or (IsStore (suc k + b) all) m.queues i null_queue r.stores inside in
    let room : held q < capacity q =
      omega (arith, held-in_queues m.queues i inside, r.fits, s.roomy) in
    let run = enqueue_room null_flow s.valid flow room (omega (arith, s.counter)) in
    let h = stored-Holds null_flow s.valid flow room (omega (arith, s.counter)) in
    let (same, more) = store_more m.queues i (stored q flow) flow inside h.holds in
    (
      record m {
        queues = set m.queues i (stored q flow);
        ghash_view = set m.ghash_view i (u32 (get_or m.ghash_view i 0 + 1));
      },
      rw (small, run),
      record {
        some_managers = r.some_managers;
        counted = r.counted;
        cells = length-set m.queues i (stored q flow) ∙ r.cells;
        stores =
            All-set (IsStore (k + b) all) m.queues i (stored q flow)
              (stores-less (suc k + b) (k + b) all m.queues (omega arith) r.stores)
              (record {
                valid = h.valid;
                roomy = omega (arith, s.roomy, h.same_capacity);
                counter = omega (arith, s.counter, h.taken);
              });
        fits = omega (arith, more, r.fits);
      },
      refl,
      same,
      more,
    )

-- The flows of a batch.
pub send_flows-stores :
    (b all : ℕ) (flows : List FlowItem) (m : Managers)
    → IsReadyFor b all (length flows) m
    → (m' : Managers) × (send_flows flows m ≡ returns m') × IsStored b all flows m m'
unfolding send_flows
send_flows-stores b all [] m r = (
  m,
  refl,
  record {
    ready = r;
    same_numbers = refl;
    same = Perm.refl (in_queues m.queues);
    more = omega arith;
  },
)
send_flows-stores b all (flow ∷ flows) m r =
    let (m₁, run₁, r₁, nums, same₁, more₁) = send_flow-stores b all (length flows) flow m r in
    let (m', run, s) = send_flows-stores b all flows m₁ r₁ in
    (
      m',
      rw (send_flows, run₁, run),
      record {
        ready = s.ready;
        same_numbers = s.same_numbers ∙ nums;
        same =
            Perm.trans s.same
              (Perm.trans (Perm.append_left flows same₁) (perm_middle flows (in_queues m.queues)));
        more = omega (arith, s.more, more₁);
      },
    )
