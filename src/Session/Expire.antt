-- ===== src/Session/Expire.antt =====
-- `delete_session` on a sound bucket.
use freepacket.Base.{
  returns, ℕ, suc, ◌+◌, ◌-◌, ◌^◌, ◌≤◌, ◌<◌, ◌≡◌, refl, ap, ◌∙◌, List, [], ◌∷◌, ◌++◌, arith,
  length as arr_length, All, Bool-cases, inl, inr, ltb, sub32, sub64,
}
use mathlib.Core.List.{Perm}
use mathlib.Core.List.Perm
use freepacket.Base.Places.{beside}
use freepacket.Queue.Single.{contents}
use freepacket.Session.Places.{places, pooled, ended_same}
use freepacket.Config.{SimConfig}
use freepacket.Queue.{Queue, capacity}
use freepacket.Session.{null_blist, Blist, Bucket, expiry, sweep, delete_session}
use freepacket.Session.Table.{IsSession, BucketOk, PoolOk, give_back}
use freepacket.Session.Young.{young, young-le, young-All, young-Distinct}

-- The pool after some of `n` nodes have come back, and all but `kept`: sound, and its counters have
-- moved by their number.
pub record IsRefilled (limit n kept : ℕ) (pool pool' : Queue Blist) : Type 0 where
  pub pool_ok : PoolOk limit pool'
  pub same_capacity : capacity pool' ≡ capacity pool
  pub same_out : pool'.dequeue_count ≡ pool.dequeue_count
  pub moved : pool'.enqueue_count + kept ≡ pool.enqueue_count + n
  pub some_kept : kept ≤ n

-- The pool has room for `n` more nodes.
pub record HasRoom (n : ℕ) (pool : Queue Blist) : Type 0 where
  pub room : pool.enqueue_count - pool.dequeue_count + n ≤ capacity pool
  pub counter : pool.enqueue_count + n < 2 ^ 64
  pub ordered : pool.dequeue_count ≤ pool.enqueue_count

-- One node has come back before the others.
IsRefilled-suc :
    (limit n kept : ℕ) (pool pool₁ pool' : Queue Blist)
    → capacity pool₁ ≡ capacity pool
    → pool₁.dequeue_count ≡ pool.dequeue_count
    → pool₁.enqueue_count ≡ pool.enqueue_count + 1
    → IsRefilled limit n kept pool₁ pool'
    → IsRefilled limit (suc n) kept pool pool'
IsRefilled-suc limit n kept pool pool₁ pool' cap out counter f = record {
  pool_ok = f.pool_ok;
  same_capacity = f.same_capacity ∙ cap;
  same_out = f.same_out ∙ out;
  moved = omega (arith, f.moved, counter);
  some_kept = omega (arith, f.some_kept);
}

sweep_lem :
    (limit age now : ℕ) (nodes : List Blist) (count : ℕ) (pool : Queue Blist)
    → All (IsSession limit) nodes
    → arr_length nodes ≤ count
    → count < 2 ^ 32
    → PoolOk limit pool
    → HasRoom (arr_length nodes) pool
    → (pool' : Queue Blist) × (sweep age now nodes count pool
        ≡ returns (
          young age now nodes,
          count - (arr_length nodes - arr_length (young age now nodes)),
          pool',
        ))
      × IsRefilled limit (arr_length nodes) (arr_length (young age now nodes)) pool pool'
      × Perm (pooled pool ++ places nodes) (pooled pool' ++ places (young age now nodes))
unfolding sweep young
sweep_lem limit age now [] count pool s le small p r = (
  pool,
  ap (λ (n : ℕ). returns ([], n, pool)) (omega arith),
  record {
    pool_ok = p;
    same_capacity = refl;
    same_out = refl;
    moved = omega arith;
    some_kept = omega arith;
  },
  Perm.refl _,
)
sweep_lem limit age now (node ∷ nodes) count pool (s, ss) le small p r =
    elim (Bool-cases (ltb age (sub64 now node.item.last_time))) [
      | inl old ↦
          let (pool₁, run₁, p₁, cap, out, counter, put) =
            give_back limit pool node p s.sized (omega (arith, r.room))
              (omega (arith, r.counter)) in
          let (pool', run, f, same) =
            sweep_lem limit age now nodes (sub32 count 1) pool₁ ss (omega arith) (omega arith) p₁
              (record {
                room = omega (arith, r.room, r.ordered);
                counter = omega (arith, r.counter);
                ordered = omega (arith, r.ordered);
              }) in
          let counted : sub32 count 1 - (arr_length nodes - arr_length (young age now nodes))
              ≡ count - (suc (arr_length nodes) - arr_length (young age now nodes)) =
            omega (arith, young-le age now nodes) in
          (
            pool',
            rw (old, sweep, run₁)
                (run ∙ ap (λ (n : ℕ). returns (young age now nodes, n, pool')) counted),
            rw old (
                IsRefilled-suc limit (arr_length nodes) (arr_length (young age now nodes)) pool
                  pool₁ pool' cap out counter f),
            rw old (
                Perm.trans {l₃ = pooled pool' ++ places (young age now nodes)}
                  (ended_same [] node nodes (contents null_blist pool) (contents null_blist pool₁)
                    (node ∷ nodes) refl put)
                  same),
          )
      | inr fresh ↦
          let (pool', run, f, same) =
            sweep_lem limit age now nodes count pool ss (omega arith) small p (record {
              room = omega (arith, r.room);
              counter = omega (arith, r.counter);
              ordered = r.ordered;
            }) in
          let counted : count - (arr_length nodes - arr_length (young age now nodes))
              ≡ count - (suc (arr_length nodes) - suc (arr_length (young age now nodes))) =
            omega (arith, young-le age now nodes) in
          (
            pool',
            rw (fresh, sweep, run)
                (ap (λ (n : ℕ). returns (node ∷ young age now nodes, n, pool')) counted),
            rw fresh (record {
              pool_ok = f.pool_ok;
              same_capacity = f.same_capacity;
              same_out = f.same_out;
              moved = omega (arith, f.moved);
              some_kept = omega (arith, f.some_kept);
            }),
            rw fresh (
                beside (pooled pool) (node.address ∷ []) (places nodes) (pooled pool')
                  (places (young age now nodes)) same),
          )
    ]

-- The bucket without the sessions that are older than `age`.
abbrev pub swept : ℕ → ℕ → Bucket → Bucket
swept age now bucket =
    let nodes = young age now bucket.list in record { list = nodes; count = arr_length nodes }

pub delete_session_lem :
    (limit : ℕ) (config : SimConfig) (now : ℕ) (bucket : Bucket) (pool : Queue Blist)
    → BucketOk limit bucket
    → arr_length bucket.list < 2 ^ 32
    → PoolOk limit pool
    → HasRoom (arr_length bucket.list) pool
    → (pool' : Queue Blist) × (delete_session config now (bucket, pool)
        ≡ returns (swept (expiry config) now bucket, pool'))
      × BucketOk limit (swept (expiry config) now bucket)
      × IsRefilled limit
          (arr_length bucket.list)
          (arr_length (swept (expiry config) now bucket).list)
          pool
          pool'
      × Perm
          (pooled pool ++ places bucket.list)
          (pooled pool' ++ places (swept (expiry config) now bucket).list)
unfolding delete_session
delete_session_lem limit config now bucket pool b small p r =
    let (pool', run, f, same) =
      sweep_lem limit (expiry config) now bucket.list bucket.count pool b.sessions
        (omega (arith, b.counted)) (omega (arith, b.counted)) p r in
    let nodes = young (expiry config) now bucket.list in
    let counted : bucket.count - (arr_length bucket.list - arr_length nodes) ≡ arr_length nodes =
      omega (arith, b.counted, young-le (expiry config) now bucket.list) in
    (
      pool',
      rw (delete_session, run)
          (ap (λ (n : ℕ). returns (record { list = nodes; count = n }, pool')) counted),
      record {
        sessions = young-All (IsSession limit) (expiry config) now bucket.list b.sessions;
        distinct = young-Distinct (expiry config) now bucket.list b.distinct;
        counted = refl;
      },
      f,
      same,
    )
