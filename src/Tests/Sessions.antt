-- ===== src/Tests/Sessions.antt =====
-- A table with one session, a manager around it, and the default number of buckets.
use freepacket.Base.{
  returns, ℕ, ◌+◌, ◌%◌, ◌≤◌, ◌≡◌, ◌≢◌, ◌⊎◌, refl, List, [], ◌∷◌, arith, replicate, All,
}
use freepacket.Config.{SimConfig}
use freepacket.Config.Lines.{goes_on, read_config_simple}
use freepacket.Config.Reload.{IsReloaded, read_config_simple-IsReloaded}
use freepacket.Queue.{Queue, slot}
use freepacket.Queue.Single.{IsValid}
use freepacket.Parser.{Packet, FlowItem, make_hash}
use freepacket.Parser.Direction.{SameKey}
use freepacket.Parser.Loop.{null_flow, null_packet}
use freepacket.Session.{
  Blist, Bucket, HashTable, null_blist, hash_add_item, hash_travel_delete, hash_count,
}
use freepacket.Session.Added.{add_bytes, CanAdd}
use freepacket.Session.Life.{IsAlive}
use freepacket.Session.Calls.{Call, adds, sweeps, calls, calls-IsAlive}
use freepacket.Session.Table.{BucketOk, PoolOk}
use freepacket.Session.Refine.{TableOk, view, hash_add_item-refines}
use mathlib.Core.List.{Perm}
use freepacket.Session.Places.{nodes_of}
use freepacket.Session.Sweep.{all_swept, held, hash_travel_delete_lem}
use freepacket.Manager.{ManagerState, manager_hash, packet_manager_round}
use freepacket.Manager.Frees.{CanRound, IsFreed, packet_manager_round-deep}
use freepacket.Tests.Packets.{config}

-- A queue of two cells of which the first `n` are full.
abbrev pub two : {A : Type 0} → A → A → ℕ → Queue A
two a b n = record {
  log2_entries = 1;
  enqueue_count = n;
  dequeue_count = 0;
  node = a ∷ b ∷ [];
  item_size = 8;
  total = 2;
  length = n;
}

pub two-IsValid : {A : Type 0} (a b : A) (n : ℕ) → n ≤ 2 → IsValid (two a b n)
two-IsValid a b n h = record {
  cells = refl;
  narrow = omega arith;
  ordered = omega arith;
  bounded = omega arith;
  counted = omega arith;
  wide = omega arith;
}

abbrev pub small_config : ℕ → SimConfig
small_config depth = record config { manager_buffer_size = 8; pipe_depth = depth }

abbrev segment : Packet
segment = record { address = 1; bytes = 104 ∷ 101 ∷ 108 ∷ 108 ∷ 111 ∷ []; length = 5; pool = 1 }

abbrev pub talk : FlowItem
talk = record {
  address = 11;
  upper_ip = 5;
  lower_ip = 4;
  upper_port = 3;
  lower_port = 2;
  protocol = 6;
  packet = segment;
  payload = 2;
  payload_len = 3;
  pool = 2;
}

abbrev spare : Blist
spare = record null_blist { item = record null_blist.item { buffer = replicate 8 0 } }

-- The session of `talk`, with three bytes.
abbrev running : Blist
running = record {
  address = 100;
  item = record {
    upper_ip = 5;
    lower_ip = 4;
    upper_port = 3;
    lower_port = 2;
    protocol = 6;
    buffer = replicate 8 7;
    last_time = 0;
    length = 8;
    cur_len = 3;
  };
}

abbrev bucket : Bucket
bucket = record { list = running ∷ []; count = 1 }

bucket-BucketOk : BucketOk 8 bucket
bucket-BucketOk = record {
  sessions = (record { sized = refl; limited = refl; filled = omega arith }, tt);
  distinct = (λ flow hit. tt, tt);
  counted = refl;
}

abbrev pool : Queue Blist
pool = two spare null_blist 1

pool-PoolOk : PoolOk 8 pool
unfolding slot
pool-PoolOk = record { valid = two-IsValid spare null_blist 1 (omega arith); nodes = (refl, tt) }

abbrev pub table : HashTable
table = record { num_buckets = 1; buckets = bucket ∷ []; session_pool = pool }

pub table-TableOk : TableOk 8 table
table-TableOk = record {
  some_buckets = omega arith;
  cells = refl;
  buckets_ok = (bucket-BucketOk, tt);
  pool_ok = pool-PoolOk;
}

talk-CanAdd : CanAdd 8 talk bucket pool
talk-CanAdd = record {
  bucket_ok = bucket-BucketOk;
  pool_ok = pool-PoolOk;
  room = omega arith;
  counter = omega arith;
  few = omega arith;
  inside = refl;
  fits = omega arith;
}

hash_add_item-refines_example :
    (ht' : HashTable) × (hash_add_item (small_config 5) 50 table 0 talk ≡ returns ht')
    × TableOk 8 ht'
    × (view ht' 0 talk ≡ add_bytes 8 (view table 0 talk) (108 ∷ 108 ∷ 111 ∷ []))
    × ((key' : ℕ) (other : FlowItem)
        → (key' % 1 ≢ 0) ⊎ (¬ SameKey talk other)
        → view ht' key' other ≡ view table key' other)
hash_add_item-refines_example =
    hash_add_item-refines 8 (small_config 5) 50 table 0 talk (omega arith) refl table-TableOk
      talk-CanAdd (omega arith)

hash_travel_delete_lem_example :
    (ht' : HashTable) × (hash_travel_delete (small_config 5) (λ i. 6000100 + i) table ≡ returns ht')
    × (ht'.buckets ≡ all_swept 6000000 (λ i. 6000100 + i) 0 (bucket ∷ []))
    × All (BucketOk 8) ht'.buckets
    × PoolOk 8 ht'.session_pool
    × (hash_count ht' ≡ held ht'.buckets)
unfolding held
hash_travel_delete_lem_example =
    hash_travel_delete_lem 8 (small_config 5) (λ i. 6000100 + i) table (omega arith) (omega arith)
      (omega arith) (bucket-BucketOk, tt) (omega arith) pool-PoolOk
      (record { room = omega arith; counter = omega arith; ordered = omega arith })

-- A manager with `talk` in its queue and its packet and flow in use.
abbrev manager : ManagerState
manager = record {
  queue = two talk null_flow 1;
  ht = table;
  packet_pool = two null_packet null_packet 0;
  flow_pool = two null_flow null_flow 1;
  alive = 0;
}

manager-CanRound : CanRound manager
manager-CanRound = record {
  valid = two-IsValid talk null_flow 1 (omega arith);
  some_flow = omega arith;
  packets = record {
    valid = two-IsValid null_packet null_packet 0 (omega arith);
    room = omega arith;
    counter = omega arith;
  };
  flows = record {
    valid = two-IsValid null_flow null_flow 1 (omega arith);
    room = omega arith;
    counter = omega arith;
  };
}

packet_manager_round-deep_example :
    (s' : ManagerState) × (packet_manager_round (small_config 5) 50 manager ≡ returns s')
    × IsFreed manager s'
    × TableOk 8 s'.ht
    × (view s'.ht 0 talk ≡ add_bytes 8 (view table 0 talk) (108 ∷ 108 ∷ 111 ∷ []))
unfolding slot manager_hash make_hash
packet_manager_round-deep_example =
    packet_manager_round-deep 8 (small_config 5) 50 manager refl (omega arith) refl manager-CanRound
      table-TableOk talk-CanAdd (omega arith)

-- "PIPE_DEPTH = 3" and a comment.
abbrev settings : List ℕ
settings =
    80 ∷ 73 ∷ 80 ∷ 69 ∷ 95 ∷ 68 ∷ 69 ∷ 80 ∷ 84 ∷ 72 ∷ 32 ∷ 61 ∷ 32 ∷ 51 ∷ 10 ∷ 35 ∷ 120 ∷ 10 ∷ []

read_config_simple-IsReloaded_example :
    (c' : SimConfig) × (read_config_simple 0 settings config ≡ goes_on c') × IsReloaded config c'
read_config_simple-IsReloaded_example = read_config_simple-IsReloaded 0 settings config

abbrev three_calls : List Call
three_calls = adds 50 0 talk ∷ sweeps (λ i. 60 + i) ∷ adds 70 0 talk ∷ []

table-IsAlive : IsAlive 8 3 2 table
unfolding held
table-IsAlive = record {
  table_ok = table-TableOk;
  nodes = refl;
  room = omega arith;
  few = omega arith;
  counter = omega arith;
}

calls-IsAlive_example :
    (ht' : HashTable) × (calls (small_config 5) three_calls table ≡ returns ht')
    × IsAlive 8 0 2 ht'
    × Perm (nodes_of table) (nodes_of ht')
calls-IsAlive_example =
    calls-IsAlive 8 0 2 (small_config 5) three_calls table (omega arith) refl
      ((refl, omega arith), (tt, ((refl, omega arith), tt))) table-IsAlive
