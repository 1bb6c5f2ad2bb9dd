-- ===== src/Session/Sweep.antt =====
-- `hash_travel_delete` and `hash_count` on a sound table.
use native.Mathlib.Nat.{mod-eq_of_lt}
use freepacket.Base.{
  sign_extend-small, ap, ◌*◌, returns, ℕ, ◌+◌, ◌^◌, ◌≤◌, ◌<◌, ◌≡◌, refl, List, [], ◌∷◌, ◌++◌, arith,
  length as arr_length, All, u32,
}
use mathlib.Core.List.{Perm}
use mathlib.Core.List.Perm
use freepacket.Base.Places.{widen, beside}
use freepacket.Session.Places.{places, pooled, in_sessions, nodes_of}
use freepacket.Config.{SimConfig}
use freepacket.Queue.{Queue}
use freepacket.Session.{
  Blist, Bucket, HashTable, expiry, travel, hash_travel_delete, count_from, hash_count,
}
use freepacket.Session.Table.{BucketOk, PoolOk}
use freepacket.Session.Young.{young-le}
use freepacket.Session.Expire.{HasRoom, IsRefilled, swept, delete_session_lem}

-- The sessions of all buckets.
unfoldable pub held : List Bucket → ℕ
held [] = 0
held (bucket ∷ buckets) = arr_length bucket.list + held buckets

-- Each bucket after its turn, at its own reading of the counter.
unfoldable pub all_swept : ℕ → (ℕ → ℕ) → ℕ → List Bucket → List Bucket
all_swept age now i [] = []
all_swept age now i (bucket ∷ buckets) =
    swept age (now i) bucket ∷ all_swept age now (i + 1) buckets

travel_lem :
    (limit : ℕ) (config : SimConfig) (now : ℕ → ℕ) (i : ℕ) (buckets : List Bucket)
    (pool : Queue Blist)
    → All (BucketOk limit) buckets
    → held buckets < 2 ^ 32
    → PoolOk limit pool
    → HasRoom (held buckets) pool
    → (pool' : Queue Blist) × (travel config now i buckets pool
        ≡ returns (all_swept (expiry config) now i buckets, pool'))
      × All (BucketOk limit) (all_swept (expiry config) now i buckets)
      × IsRefilled limit (held buckets) (held (all_swept (expiry config) now i buckets)) pool pool'
      × Perm
          (pooled pool ++ in_sessions buckets)
          (pooled pool' ++ in_sessions (all_swept (expiry config) now i buckets))
unfolding travel held all_swept in_sessions
travel_lem limit config now i [] pool b small p r = (
  pool,
  refl,
  tt,
  record {
    pool_ok = p;
    same_capacity = refl;
    same_out = refl;
    moved = omega arith;
    some_kept = omega arith;
  },
  Perm.refl _,
)
travel_lem limit config now i (bucket ∷ buckets) pool (b, bs) small p r =
    let (pool₁, run₁, ok, f, same) =
      delete_session_lem limit config (now i) bucket pool b (omega arith) p (record {
        room = omega (arith, r.room);
        counter = omega (arith, r.counter);
        ordered = r.ordered;
      }) in
    let (pool', run, oks, q, same') =
      travel_lem limit config now (i + 1) buckets pool₁ bs (omega arith) f.pool_ok (record {
        room = omega (arith, r.room, f.same_capacity, f.same_out, f.moved, r.ordered);
        counter = omega (arith, r.counter, f.moved);
        ordered = omega (arith, r.ordered, f.same_out, f.moved, f.some_kept);
      }) in
    (
      pool',
      rw (travel, run₁, run),
      (ok, oks),
      record {
        pool_ok = q.pool_ok;
        same_capacity = omega (arith, q.same_capacity, f.same_capacity);
        same_out = omega (arith, q.same_out, f.same_out);
        moved = omega (arith, f.moved, q.moved);
        some_kept = omega (arith, f.some_kept, q.some_kept);
      },
      let kept = places (swept (expiry config) (now i) bucket).list in
          Perm.trans
            {l₃ = pooled pool'
              ++ (kept ++ in_sessions (all_swept (expiry config) now (i + 1) buckets))}
            (widen (pooled pool) (places bucket.list) (pooled pool₁) kept (in_sessions buckets)
              same)
            (beside (pooled pool₁) kept (in_sessions buckets) (pooled pool')
              (in_sessions (all_swept (expiry config) now (i + 1) buckets)) same'),
    )

-- The sum of the buckets' counts.
count_from-held :
    (limit cnt : ℕ) (buckets : List Bucket)
    → All (BucketOk limit) buckets
    → cnt + held buckets < 2 ^ 32
    → count_from cnt buckets ≡ cnt + held buckets
unfolding count_from held
count_from-held limit cnt [] b small = omega arith
count_from-held limit cnt (bucket ∷ buckets) (b, bs) small =
    let e : u32 (cnt + bucket.count) ≡ cnt + arr_length bucket.list = omega (arith, b.counted) in
    rw e
      (omega (arith, count_from-held limit (cnt + arr_length bucket.list) buckets bs (omega arith)))

held-le :
    (age : ℕ) (now : ℕ → ℕ) (i : ℕ) (buckets : List Bucket)
    → held (all_swept age now i buckets) ≤ held buckets
unfolding held all_swept
held-le age now i [] = omega arith
held-le age now i (bucket ∷ buckets) =
    omega (arith, young-le age (now i) bucket.list, held-le age now (i + 1) buckets)

-- `hash_travel_delete` gives back the nodes of the sessions that it ends.
pub hash_travel_delete_refills :
    (limit : ℕ) (config : SimConfig) (now : ℕ → ℕ) (ht : HashTable)
    → All (BucketOk limit) ht.buckets
    → held ht.buckets < 2 ^ 32
    → PoolOk limit ht.session_pool
    → HasRoom (held ht.buckets) ht.session_pool
    → let buckets = all_swept (expiry config) now 0 ht.buckets in
      (pool' : Queue Blist) × (hash_travel_delete config now ht
        ≡ returns (record ht { buckets = buckets; session_pool = pool' }))
      × All (BucketOk limit) buckets
      × IsRefilled limit (held ht.buckets) (held buckets) ht.session_pool pool'
      × Perm (nodes_of ht) (pooled pool' ++ in_sessions buckets)
unfolding hash_travel_delete
hash_travel_delete_refills limit config now ht b small p r =
    let (pool', run, oks, q, same) =
      travel_lem limit config now 0 ht.buckets ht.session_pool b small p r in
    (pool', rw (hash_travel_delete, run), oks, q, same)

-- A configured time and clock rate that are not negative give the age of the time in seconds.
expiry-cycles :
    (config : SimConfig)
    → config.destory_time < 2 ^ 31
    → config.mhz < 2 ^ 31
    → config.destory_time * 1000 * config.mhz < 2 ^ 64
    → expiry config ≡ config.destory_time * 1000 * config.mhz
expiry-cycles config time rate product =
    rw (sign_extend-small config.destory_time time, sign_extend-small config.mhz rate)
      (mod-eq_of_lt product)

-- With a configured time and clock rate that are not negative and whose product, times 1000, is
-- below 2 ^ 64, sound buckets, fewer than 2 ^ 32 sessions, and room in a sound pool for all of
-- them, `hash_travel_delete` returns: each bucket keeps its sessions whose age, a 64-bit
-- difference, is at most the time times 1000 times the rate, in their order, the buckets and the pool stay sound, and `hash_count` is then
-- the number of sessions kept.
pub hash_travel_delete_lem :
    (limit : ℕ) (config : SimConfig) (now : ℕ → ℕ) (ht : HashTable)
    → config.destory_time < 2 ^ 31
    → config.mhz < 2 ^ 31
    → config.destory_time * 1000 * config.mhz < 2 ^ 64
    → All (BucketOk limit) ht.buckets
    → held ht.buckets < 2 ^ 32
    → PoolOk limit ht.session_pool
    → HasRoom (held ht.buckets) ht.session_pool
    → (ht' : HashTable) × (hash_travel_delete config now ht ≡ returns ht')
      × (ht'.buckets ≡ all_swept (config.destory_time * 1000 * config.mhz) now 0 ht.buckets)
      × All (BucketOk limit) ht'.buckets
      × PoolOk limit ht'.session_pool
      × (hash_count ht' ≡ held ht'.buckets)
unfolding hash_count
hash_travel_delete_lem limit config now ht time rate product b small p r =
    let (pool', run, oks, q, same) = hash_travel_delete_refills limit config now ht b small p r in
    (
      record ht { buckets = all_swept (expiry config) now 0 ht.buckets; session_pool = pool' },
      run,
      ap (λ (age : ℕ). all_swept age now 0 ht.buckets) (expiry-cycles config time rate product),
      oks,
      q.pool_ok,
      omega (
        arith,
        count_from-held limit 0 (all_swept (expiry config) now 0 ht.buckets) oks
            (omega (arith, held-le (expiry config) now 0 ht.buckets)),
      ),
    )
