-- ===== src/Manager/Ready.antt =====
-- What a manager starts its loop with.
use native.Mathlib.Nat.{mod-eq_of_lt, mul-le-mul_right}
use freepacket.Base.{
  u32, lt→leb, le→ltb, ◌*◌, ℕ, zero, suc, ◌+◌, ◌-◌, ◌^◌, ◌≤◌, ◌<◌, ◌≡◌, refl, sym, ap, ◌∙◌, List,
  [], ◌∷◌, some, arith, replicate, All, length as arr_length, length-replicate,
}
use mathlib.Core.Path.{subst}
use freepacket.Config.{SimConfig}
use freepacket.Queue.{Queue, init}
use freepacket.Queue.Single.{Holds, init-Holds}
use freepacket.Queue.Fill.{fill_pool, fill_pool-init, length-contents}
use freepacket.Parser.{FlowItem}
use freepacket.Parser.Loop.{null_flow}
use freepacket.Session.{HashTable, Blist, null_blist, empty_bucket}
use freepacket.Session.Table.{IsSized, BucketOk}
use freepacket.Session.Refine.{TableOk}
use freepacket.Manager.{setup, hash_create, next_prime}
use freepacket.Manager.Prime.{IsPrime, IsNextPrime, next_prime-IsNextPrime}
use freepacket.Manager.Start.{ManagerMemory, with_buffers, init_single_manager}

All-replicate {ℓ} : {A : Type 0} (P : A → Type ℓ) (n : ℕ) (a : A) → P a → All P (replicate n a)
All-replicate P zero a h = tt
All-replicate P (suc n) a h = (h, All-replicate P n a h)

empty_bucket-BucketOk : (limit : ℕ) → BucketOk limit empty_bucket
empty_bucket-BucketOk limit = record { sessions = tt; distinct = tt; counted = refl }

length-with_buffers :
    (malloc : ℕ → List ℕ) (j : ℕ) (nodes : List Blist)
    → arr_length (with_buffers malloc j nodes) ≡ arr_length nodes
unfolding with_buffers
length-with_buffers malloc j [] = refl
length-with_buffers malloc j (node ∷ nodes) = ap suc (length-with_buffers malloc (j + 1) nodes)

with_buffers-IsSized :
    (limit : ℕ) (malloc : ℕ → List ℕ) (j : ℕ) (nodes : List Blist)
    → ((k : ℕ) → arr_length (malloc k) ≡ limit)
    → All (IsSized limit) (with_buffers malloc j nodes)
unfolding with_buffers
with_buffers-IsSized limit malloc j [] h = tt
with_buffers-IsSized limit malloc j (node ∷ nodes) h =
    (h j, with_buffers-IsSized limit malloc (j + 1) nodes h)

-- An empty queue of 2 ^ 10 cells, and a sound table without sessions whose number of buckets is
-- the next prime and whose pool has all of its 2 ^ 16 nodes.
pub record IsReady (config : SimConfig) (queue : Queue FlowItem) (ht : HashTable) : Type 0 where
  pub queue_ok : Holds null_flow (2 ^ 10) 0 [] queue
  pub table_ok : TableOk config.manager_buffer_size ht
  pub no_sessions : ht.buckets ≡ replicate ht.num_buckets empty_bucket
  pub primed : IsNextPrime config.manager_hash_length ht.num_buckets
  pub nodes : ht.session_pool.enqueue_count - ht.session_pool.dequeue_count ≡ 2 ^ 16
  pub counter : ht.session_pool.enqueue_count ≡ 2 ^ 16

hash_create-run :
    (fuel size num r : ℕ) (pool : Queue Blist)
    → next_prime fuel num ≡ some r
    → r < 2 ^ 31
    → r * size < 2 ^ 31
    → hash_create fuel size num pool
      ≡ setup (record { num_buckets = r; buckets = replicate r empty_bucket; session_pool = pool })
unfolding hash_create
hash_create-run fuel size num r pool run small fits =
    let bytes : u32 (r * size) ≡ r * size = mod-eq_of_lt (omega arith) in
    rw (
      hash_create,
      run,
      bytes,
      lt→leb (2 ^ 31) r small,
      lt→leb (2 ^ 31) (r * size) fits,
      le→ltb (r * size) (r * size) (omega arith),
    )

-- On memory of the allocated sizes, with buffers of the configured size and a prime above the
-- configured hash length within the fuel, below 2 ^ 31 and with fewer than 2 ^ 31 bytes in as many
-- buckets, `init_signle_manager` returns: the queue is empty, and
-- the table is sound, has no session, has the least prime above the configured length as its
-- number of buckets, and all of its 2 ^ 16 nodes are in the pool.
pub init_single_manager-IsReady :
    (fuel p : ℕ) (config : SimConfig) (m : ManagerMemory)
    → arr_length m.queue_node ≡ 2 ^ 10
    → arr_length m.pool_node ≡ 2 ^ 16
    → arr_length m.nodes ≡ 2 ^ 16
    → ((k : ℕ) → arr_length (m.malloc k) ≡ config.manager_buffer_size)
    → IsPrime p
    → config.manager_hash_length < p
    → p ≤ config.manager_hash_length + fuel
    → p < 2 ^ 31
    → p * m.bucket_size < 2 ^ 31
    → (r : Queue FlowItem × HashTable) × (init_single_manager fuel config m ≡ setup r)
      × IsReady config r.0 r.1
unfolding init_single_manager
init_single_manager-IsReady fuel p config m cells pool_cells many sized prime above near small
      fits =
    let limit = config.manager_buffer_size in
    let sessions = with_buffers m.malloc 0 m.nodes in
    let (r, run, n) =
      next_prime-IsNextPrime fuel config.manager_hash_length p prime above near small in
    let most : r ≤ p = n.least p prime above in
    let bytes : r * m.bucket_size ≤ p * m.bucket_size = mul-le-mul_right m.bucket_size most in
    let h =
      fill_pool-init null_blist 16 m.pool_node sessions (omega arith) pool_cells
        (omega (arith, many, length-with_buffers m.malloc 0 m.nodes)) in
    let pool = fill_pool (init 16 null_blist m.pool_node) sessions in
    let ht : HashTable = record {
      num_buckets = r;
      buckets = replicate r empty_bucket;
      session_pool = pool;
    } in
    (
      (init 10 null_flow m.queue_node, ht),
      rw (
        init_single_manager,
        hash_create-run fuel m.bucket_size config.manager_hash_length r pool run (omega arith)
            (omega arith),
      ),
      record {
        queue_ok = init-Holds null_flow 10 m.queue_node (omega arith) cells;
        table_ok = record {
          some_buckets = omega (arith, n.above);
          cells = length-replicate r empty_bucket;
          buckets_ok = All-replicate (BucketOk limit) r empty_bucket (empty_bucket-BucketOk limit);
          pool_ok = record {
            valid = h.valid;
            nodes =
                subst (λ xs. All (IsSized limit) xs) (sym h.holds)
                  (with_buffers-IsSized limit m.malloc 0 m.nodes sized);
          };
        };
        no_sessions = refl;
        primed = n;
        nodes =
            sym (length-contents null_blist pool)
            ∙ ap arr_length h.holds
            ∙ length-with_buffers m.malloc 0 m.nodes
            ∙ many;
        counter = h.taken ∙ length-with_buffers m.malloc 0 m.nodes ∙ many;
      },
    )
