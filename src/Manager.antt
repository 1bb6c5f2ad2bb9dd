-- ===== src/Manager.antt =====
-- packet_manager.c: one round of `packet_manager_loop`, and what `init_signle_manager` leaves; with
-- `hash_create` of hash.c. The two pools are those that the flow and its packet came from.
pub mod Frees
pub mod Prime
pub mod Start
pub mod Ready
pub mod Sessions
use freepacket.Base.{
  Outcome, returns, spins, overruns, ℕ, zero, suc, ◌+◌, ◌-◌, ◌*◌, ◌^◌, ◌%◌, is_negative, List, [],
  ◌∷◌, Option, none, some, Bool, true, false, ◌==◌, u32, ltb, replicate, int_lt, if◌then◌else◌,
}
use freepacket.Config.{SimConfig}
use freepacket.Queue.{Queue, init, enqueue, dequeue}
use freepacket.Parser.{Packet, FlowItem, make_hash}
use freepacket.Parser.Loop.{null_flow}
use freepacket.Session.{HashTable, Blist, null_blist, empty_bucket, hash_add_item}

-- `manager_t`, and the pools of its packets and flows.
pub record ManagerState : Type 0 where
  pub queue : Queue FlowItem
  pub ht : HashTable
  pub packet_pool : Queue Packet
  pub flow_pool : Queue FlowItem
  pub alive : ℕ

-- `MAKE_HASH(v1, v2, h1, lower_port, upper_ip, upper_port, lower_ip, num_buckets)`
unfoldable pub manager_hash : FlowItem → ℕ → ℕ
manager_hash flow size = make_hash flow.lower_port flow.upper_ip flow.upper_port flow.lower_ip size

-- The packet back to its pool, then the flow to its own.
unfoldable pub release : FlowItem → ManagerState → Outcome ManagerState
release flow s = elim (enqueue s.packet_pool flow.packet) [
  | none ↦ spins
  | some packet_pool ↦ elim (enqueue s.flow_pool flow) [
    | none ↦ spins
    | some flow_pool ↦ returns (record s { packet_pool = packet_pool; flow_pool = flow_pool })
  ]
]

-- `hash_add_item(&manager->ht, index, flow)` with the two releases that end both of its branches.
unfoldable pub add_flow : SimConfig → ℕ → FlowItem → ManagerState → Outcome ManagerState
add_flow config now flow s =
    elim (hash_add_item config now s.ht (manager_hash flow (s.ht).num_buckets) flow) [
      | returns ht ↦ release flow (record s { ht = ht })
      | spins ↦ spins
      | overruns ↦ overruns
    ]

-- The body of the `while(1)` of `packet_manager_loop`.
unfoldable pub packet_manager_round : SimConfig → ℕ → ManagerState → Outcome ManagerState
packet_manager_round config now s = elim (dequeue null_flow s.queue) [
  | none ↦ spins
  | some (flow, queue) ↦
      let started = record s { queue = queue; alive = u32 (s.alive + 1) } in
      elim (int_lt 4 config.pipe_depth) [
        | true ↦ add_flow config now flow started
        | false ↦ release flow started
      ]
]

-- `for (j = 2; j < i; j++) if (i % j == 0) …`, with `n` rounds left.
unfoldable pub no_divisor : ℕ → ℕ → ℕ → Bool
no_divisor i j zero = true
no_divisor i j (suc n) = let rest = no_divisor i (j + 1) n in if i % j == 0 then false else rest

-- `while (i++) …`: the first number above `x` without a divisor. `none` is a search that is not
-- done when the fuel is used up.
unfoldable pub prime_above : ℕ → ℕ → Option ℕ
prime_above zero x = none
prime_above (suc fuel) x =
    let i = x + 1 in
    let rest = prime_above fuel i in elim (no_divisor i 2 (i - 2)) [ true ↦ some i | false ↦ rest ]

-- `next_prime(x)`: a negative `x` is counted up once, and no `j` is below the sum; the prime is
-- cast to an `int`.
unfoldable pub next_prime : ℕ → ℕ → Option ℕ
next_prime fuel x =
    if is_negative x
    then some (u32 (x + 1))
    else elim (prime_above fuel (if x == 0 then 1 else x)) [ none ↦ none | some i ↦ some (u32 i) ]

-- How a function that allocates a table ends: with its result; in `exit_if_ptr_is_null`, when
-- `malloc` is asked for a negative number of bytes; with buckets written past the end of what it
-- got; or, within the fuel, without a prime.
pub data Creation {ℓ} (A : Type ℓ) : Type ℓ where
  setup : A → Creation A
  no_memory : Creation A
  past_end : Creation A
  no_prime : Creation A

-- `hash_create(num)`, next to the pool of its manager, with `sizeof(bucket_t)`: the `int` of the
-- bytes wraps, and `while(--i >= 0)` makes no round for a negative number.
unfoldable pub hash_create : ℕ → ℕ → ℕ → Queue Blist → Creation HashTable
hash_create fuel bucket_size num session_pool = elim (next_prime fuel num) [
  | none ↦ no_prime
  | some primed ↦
      let bytes = u32 (primed * bucket_size) in
      let rounds = if is_negative primed then 0 else primed in
      if is_negative bytes
      then no_memory
      else if ltb bytes (rounds * bucket_size)
      then past_end
      else setup (record {
        num_buckets = primed;
        buckets = replicate rounds empty_bucket;
        session_pool = session_pool;
      })
]
