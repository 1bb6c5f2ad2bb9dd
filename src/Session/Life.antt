-- ===== src/Session/Life.antt =====
-- The nodes of a table over the calls of `hash_add_item` and `hash_travel_delete`.
use freepacket.Base.{
  ℕ, zero, suc, ◌+◌, ◌*◌, ◌-◌, ◌%◌, ◌^◌, ◌≤◌, ◌<◌, ◌≡◌, refl, ap, ◌∙◌, List, [], ◌∷◌, returns,
  length as arr_length, get_or, set, All-get_or, arith,
}
use native.Mathlib.Nat.{mod-lt}
use mathlib.Core.List.{Perm}
use freepacket.Session.Places.{nodes_of, bucket_moves}
use freepacket.Config.{SimConfig}
use freepacket.Queue.{capacity}
use freepacket.Parser.{FlowItem}
use freepacket.Session.{Bucket, HashTable, empty_bucket, payload_of, hash_travel_delete, expiry}
use freepacket.Session.Table.{BucketOk}
use freepacket.Session.Added.{CanAdd}
use freepacket.Session.Refine.{TableOk, IsUpdated, bucket_of}
use freepacket.Session.Sweep.{held, all_swept, hash_travel_delete_refills}

-- A sound table with `total` nodes, in sessions or free, which its pool can all take, and a
-- counter that `n` more calls leave within 64 bits.
pub record IsAlive (limit n total : ℕ) (ht : HashTable) : Type 0 where
  pub table_ok : TableOk limit ht
  pub nodes :
      ht.session_pool.enqueue_count - ht.session_pool.dequeue_count + held ht.buckets ≡ total
  pub room : total ≤ capacity ht.session_pool
  pub few : total + 1 < 2 ^ 32
  pub counter : ht.session_pool.enqueue_count + n * (total + 1) < 2 ^ 64

held-get_or :
    (buckets : List Bucket) (i : ℕ)
    → i < arr_length buckets
    → arr_length (get_or buckets i empty_bucket).list ≤ held buckets
unfolding held
held-get_or [] i h = absurd (omega (arith, h))
held-get_or (b ∷ buckets) zero h = omega arith
held-get_or (b ∷ buckets) (suc i) h = omega (arith, held-get_or buckets i (omega (arith, h)))

held-set :
    (buckets : List Bucket) (i : ℕ) (b : Bucket)
    → i < arr_length buckets
    → held (set buckets i b) + arr_length (get_or buckets i empty_bucket).list
      ≡ held buckets + arr_length b.list
unfolding held
held-set [] i b h = absurd (omega (arith, h))
held-set (a ∷ buckets) zero b h = omega arith
held-set (a ∷ buckets) (suc i) b h = omega (arith, held-set buckets i b (omega (arith, h)))

length-all_swept :
    (age : ℕ) (now : ℕ → ℕ) (i : ℕ) (buckets : List Bucket)
    → arr_length (all_swept age now i buckets) ≡ arr_length buckets
unfolding all_swept
length-all_swept age now i [] = refl
length-all_swept age now i (b ∷ buckets) = ap suc (length-all_swept age now (i + 1) buckets)

module _ (limit n total : ℕ) (config : SimConfig) (small : limit < 2 ^ 31)
    (size : config.manager_buffer_size ≡ limit) where
  pub alive-CanAdd :
      (key : ℕ) (flow : FlowItem) (ht : HashTable)
      → IsAlive limit (suc n) total ht
      → arr_length (payload_of flow) ≡ flow.payload_len
      → flow.payload_len ≤ limit
      → CanAdd limit flow (bucket_of ht key) ht.session_pool
  alive-CanAdd key flow ht a inside fits =
      let t = a.table_ok in
      let there : key % ht.num_buckets < arr_length ht.buckets =
        omega (arith, t.cells, mod-lt key t.some_buckets) in
      let some_held = held-get_or ht.buckets (key % ht.num_buckets) there in
      record {
        bucket_ok =
            All-get_or (BucketOk limit) ht.buckets (key % ht.num_buckets) empty_bucket t.buckets_ok
              there;
        pool_ok = t.pool_ok;
        room = omega (arith, a.room, a.nodes, some_held);
        counter = omega (arith, a.counter);
        few = omega (arith, a.few, a.nodes, some_held);
        inside = inside;
        fits = fits;
      }

  pub updated-IsAlive :
      (key : ℕ) (flow : FlowItem) (ht ht' : HashTable)
      → IsAlive limit (suc n) total ht
      → IsUpdated limit flow key ht ht'
      → IsAlive limit n total ht' × Perm (nodes_of ht) (nodes_of ht')
  updated-IsAlive key flow ht ht' a u =
      let t = a.table_ok in
      let there : key % ht.num_buckets < arr_length ht.buckets =
        omega (arith, t.cells, mod-lt key t.some_buckets) in
      let pool : ht'.session_pool ≡ u.state.1 = ap (λ (h : HashTable). h.session_pool) u.placed in
      let buckets : ht'.buckets ≡ set ht.buckets (key % ht.num_buckets) u.state.0 =
        ap (λ (h : HashTable). h.buckets) u.placed in
      let moved = held-set ht.buckets (key % ht.num_buckets) u.state.0 there in
      let some_held = held-get_or ht.buckets (key % ht.num_buckets) there in
      let b = u.balanced in
      (
        record {
          table_ok = u.table_ok;
          nodes = rw (pool, buckets) (omega (arith, a.nodes, moved, some_held, b.balance));
          room = rw pool (omega (arith, a.room, b.same_capacity));
          few = a.few;
          counter = rw pool (omega (arith, a.counter, b.counter));
        },
        rw (pool, buckets)
            (bucket_moves ht.buckets (key % ht.num_buckets) u.state.0 ht.session_pool u.state.1
              there b.same),
      )

  pub swept-IsAlive :
      (now : ℕ → ℕ) (ht : HashTable)
      → IsAlive limit (suc n) total ht
      → (ht' : HashTable) × (hash_travel_delete config now ht ≡ returns ht')
        × IsAlive limit n total ht'
        × Perm (nodes_of ht) (nodes_of ht')
  swept-IsAlive now ht a =
      let t = a.table_ok in
      let (pool', run, oks, f, same) =
        hash_travel_delete_refills limit config now ht t.buckets_ok (omega (arith, a.nodes, a.few))
          t.pool_ok
          (record {
            room = omega (arith, a.room, a.nodes);
            counter = omega (arith, a.counter, a.nodes);
            ordered = t.pool_ok.valid.ordered;
          }) in
      (
        record ht { buckets = all_swept (expiry config) now 0 ht.buckets; session_pool = pool' },
        run,
        record {
          table_ok = record {
            some_buckets = t.some_buckets;
            cells = length-all_swept (expiry config) now 0 ht.buckets ∙ t.cells;
            buckets_ok = oks;
            pool_ok = f.pool_ok;
          };
          nodes = omega (arith, a.nodes, f.moved, f.same_out, f.some_kept, t.pool_ok.valid.ordered);
          room = omega (arith, a.room, f.same_capacity);
          few = a.few;
          counter = omega (arith, a.counter, f.moved, a.nodes);
        },
        same,
      )

  pub IsAlive-less : (ht : HashTable) → IsAlive limit (suc n) total ht → IsAlive limit n total ht
  IsAlive-less ht a = record {
    table_ok = a.table_ok;
    nodes = a.nodes;
    room = a.room;
    few = a.few;
    counter = omega (arith, a.counter);
  }
