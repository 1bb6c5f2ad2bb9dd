-- ===== src/Session.antt =====
-- hash.c and the session functions of packet_manager.c: the hash table of sessions of one manager.
-- A `struct blist` is its address with its item; the list of a bucket is what `list_for_each`
-- visits. The time stamp counter is an argument.
pub mod Find
pub mod Keys
pub mod Distinct
pub mod Table
pub mod Added
pub mod Starts
pub mod Extends
pub mod Add
pub mod Refine
pub mod Young
pub mod Expire
pub mod Sweep
pub mod Links
pub mod Life
pub mod Places
pub mod Calls
use freepacket.Base.{
  sign_extend, ℕ, zero, suc, ◌+◌, ◌-◌, ◌*◌, ◌%◌, List, [], ◌∷◌, ◌++◌, Option, none, some, Bool,
  true, false, ◌&&◌, ◌==◌, ltb, leb, if◌then◌else◌, get_or, set, length as arr_length, take, drop,
  replicate, u32, u64, sub32, sub64, Outcome, returns, spins, overruns,
}
use freepacket.Memory.{write}
use freepacket.Config.{SimConfig}
use freepacket.Queue.{Queue, enqueue, dequeue}
use freepacket.Parser.{Packet, FlowItem}

-- `session_item_t`; `buffer` is the memory behind the pointer.
pub record SessionItem : Type 0 where
  pub upper_ip : ℕ
  pub lower_ip : ℕ
  pub upper_port : ℕ
  pub lower_port : ℕ
  pub protocol : ℕ
  pub buffer : List ℕ
  pub last_time : ℕ
  pub length : ℕ
  pub cur_len : ℕ

-- `struct blist`
pub record Blist : Type 0 where
  pub address : ℕ
  pub item : SessionItem

-- `bucket_t`
pub record Bucket : Type 0 where
  pub list : List Blist
  pub count : ℕ

-- `hash_table` with the `session_pool` of its manager.
pub record HashTable : Type 0 where
  pub num_buckets : ℕ
  pub buckets : List Bucket
  pub session_pool : Queue Blist

-- What stands for a read outside the arrays, which the invariant rules out.
abbrev pub null_blist : Blist
null_blist = record {
  address = 0;
  item = record {
    upper_ip = 0;
    lower_ip = 0;
    upper_port = 0;
    lower_port = 0;
    protocol = 0;
    buffer = [];
    last_time = 0;
    length = 0;
    cur_len = 0;
  };
}

abbrev pub empty_bucket : Bucket
empty_bucket = record { list = []; count = 0 }

-- `compare_session(item, flow) == 0`
unfoldable pub matches : SessionItem → FlowItem → Bool
matches item flow =
    item.protocol == flow.protocol
    && item.upper_ip == flow.upper_ip
    && item.lower_ip == flow.lower_ip
    && item.upper_port == flow.upper_port
    && item.lower_port == flow.lower_port

-- `find_list(head, flow)`: the node, between those before and those after it.
unfoldable pub find_list : List Blist → FlowItem → Option (List Blist × Blist × List Blist)
find_list [] flow = none
find_list (node ∷ nodes) flow =
    let rest = find_list nodes flow in
    if matches node.item flow then some ([], node, nodes) else elim rest [
      | none ↦ none
      | some (before, found, after) ↦ some (node ∷ before, found, after)
    ]

-- The `payload_len` bytes at `flow->payload`.
abbrev pub payload_of : FlowItem → List ℕ
payload_of flow = take flow.payload_len (drop flow.payload flow.packet.bytes)

-- `make_new_session`. The buffer has to hold the payload: nothing checks it.
unfoldable pub make_new_session : SimConfig → ℕ → FlowItem → SessionItem → Outcome SessionItem
make_new_session config now flow item =
    if ltb (arr_length item.buffer) flow.payload_len
    then overruns
    else returns (record {
      upper_ip = flow.upper_ip;
      lower_ip = flow.lower_ip;
      upper_port = flow.upper_port;
      lower_port = flow.lower_port;
      protocol = flow.protocol;
      buffer = write item.buffer 0 (payload_of flow);
      last_time = now;
      length = config.manager_buffer_size;
      cur_len = flow.payload_len;
    })

-- The branch of `hash_add_item` for a session that is there and has room.
unfoldable pub append_payload : ℕ → FlowItem → SessionItem → Outcome SessionItem
append_payload now flow session =
    if ltb (arr_length session.buffer) (session.cur_len + flow.payload_len)
    then overruns
    else returns (record session {
      buffer = write session.buffer session.cur_len (payload_of flow);
      cur_len = u32 (session.cur_len + flow.payload_len);
      last_time = now;
    })

-- The bucket and the pool after `hash_add_item`, on one bucket.
abbrev pub BucketState : Type 0
BucketState = Bucket × Queue Blist

-- No session for the flow: take a node from the pool and add it at the tail.
unfoldable pub add_session : SimConfig → ℕ → FlowItem → BucketState → Outcome BucketState
add_session config now flow (bucket, pool) = elim (dequeue null_blist pool) [
  | none ↦ spins
  | some (new_blist, pool') ↦ elim (make_new_session config now flow new_blist.item) [
    | returns item ↦ returns (
      record {
        list = bucket.list ++ record new_blist { item = item } ∷ [];
        count = u32 (bucket.count + 1);
      },
      pool',
    )
    | spins ↦ spins
    | overruns ↦ overruns
  ]
]

-- A session for the flow: add the payload, or take the session out and give it back to the pool.
-- The CRC of the buffer that the code computes there is not used.
unfoldable pub extend_session :
    ℕ → FlowItem → List Blist → Blist → List Blist → BucketState → Outcome BucketState
extend_session now flow before node after (bucket, pool) =
    if ltb (u32 (node.item.cur_len + flow.payload_len)) node.item.length
    then elim (append_payload now flow node.item) [
      | returns item ↦
          returns (record bucket { list = before ++ record node { item = item } ∷ after }, pool)
      | spins ↦ spins
      | overruns ↦ overruns
    ]
    else elim (enqueue pool node) [
      | none ↦ spins
      | some pool' ↦
          returns (record { list = before ++ after; count = sub32 bucket.count 1 }, pool')
    ]

unfoldable pub add_to_bucket : SimConfig → ℕ → FlowItem → BucketState → Outcome BucketState
add_to_bucket config now flow state = elim (find_list (state.0).list flow) [
  | none ↦ add_session config now flow state
  | some (before, node, after) ↦ extend_session now flow before node after state
]

-- `hash_add_item(htp, key, flow)`, without the release of the packet and the flow that ends each
-- branch, which is part of the manager's `add_flow`.
unfoldable pub hash_add_item : SimConfig → ℕ → HashTable → ℕ → FlowItem → Outcome HashTable
hash_add_item config now ht key flow =
    let i = key % ht.num_buckets in
    elim (add_to_bucket config now flow (get_or ht.buckets i empty_bucket, ht.session_pool)) [
      | returns (bucket, pool) ↦
          returns (record ht { buckets = set ht.buckets i bucket; session_pool = pool })
      | spins ↦ spins
      | overruns ↦ overruns
    ]

-- `hash_lookup_item(ht, key, value)`; the item behind `value` is read as the key of a flow.
unfoldable pub hash_lookup_item : HashTable → ℕ → FlowItem → Option Blist
hash_lookup_item ht key flow =
    elim (find_list (get_or ht.buckets (key % ht.num_buckets) empty_bucket).list flow) [
      | none ↦ none
      | some (before, node, after) ↦ some node
    ]

-- The age above which `delete_session` takes a session out: the two `int`s as `unsigned long`s.
abbrev pub expiry : SimConfig → ℕ
expiry config = u64 (sign_extend config.destory_time * 1000 * sign_extend config.mhz)

-- The loop of `delete_session` over the nodes left, at one reading of the counter.
unfoldable pub sweep : ℕ → ℕ → List Blist → ℕ → Queue Blist → Outcome (List Blist × ℕ × Queue Blist)
sweep limit now [] count pool = returns ([], count, pool)
sweep limit now (node ∷ nodes) count pool = elim (ltb limit (sub64 now node.item.last_time)) [
  | true ↦ elim (enqueue pool node) [
    | none ↦ spins
    | some pool' ↦ sweep limit now nodes (sub32 count 1) pool'
  ]
  | false ↦ elim (sweep limit now nodes count pool) [
    | returns (kept, count', pool') ↦ returns (node ∷ kept, count', pool')
    | spins ↦ spins
    | overruns ↦ overruns
  ]
]

-- `delete_session(ht, bucket)`
unfoldable pub delete_session : SimConfig → ℕ → BucketState → Outcome BucketState
delete_session config now (bucket, pool) =
    elim (sweep (expiry config) now bucket.list bucket.count pool) [
      | returns (kept, count, pool') ↦ returns (record { list = kept; count = count }, pool')
      | spins ↦ spins
      | overruns ↦ overruns
    ]

-- `hash_travel_delete(ht)`: the buckets in order, each at its own reading of the counter.
unfoldable pub travel :
    SimConfig → (ℕ → ℕ) → ℕ → List Bucket → Queue Blist → Outcome (List Bucket × Queue Blist)
travel config now i [] pool = returns ([], pool)
travel config now i (bucket ∷ buckets) pool = elim (delete_session config (now i) (bucket, pool)) [
  | returns (bucket', pool') ↦ elim (travel config now (i + 1) buckets pool') [
    | returns (buckets', pool'') ↦ returns (bucket' ∷ buckets', pool'')
    | spins ↦ spins
    | overruns ↦ overruns
  ]
  | spins ↦ spins
  | overruns ↦ overruns
]

unfoldable pub hash_travel_delete : SimConfig → (ℕ → ℕ) → HashTable → Outcome HashTable
hash_travel_delete config now ht = elim (travel config now 0 ht.buckets ht.session_pool) [
  | returns (buckets, pool) ↦ returns (record ht { buckets = buckets; session_pool = pool })
  | spins ↦ spins
  | overruns ↦ overruns
]

-- `hash_count(ht)`
unfoldable pub count_from : ℕ → List Bucket → ℕ
count_from cnt [] = cnt
count_from cnt (bucket ∷ buckets) = count_from (u32 (cnt + bucket.count)) buckets

unfoldable pub hash_count : HashTable → ℕ
hash_count ht = count_from 0 ht.buckets
