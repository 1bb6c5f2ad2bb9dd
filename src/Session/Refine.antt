-- ===== src/Session/Refine.antt =====
-- The hash table as a map from flows to the bytes collected for them.
use freepacket.Base.{
  returns, spins, refl, ℕ, ◌%◌, ◌^◌, ◌<◌, ◌≡◌, ◌≢◌, ◌⊎◌, sym, ap, ◌∙◌, List, ◌∷◌, Option, none,
  some, arith, length as arr_length, length-set, All, All-set, inl, inr, get_or, set,
  get_or-set_self, get_or-set_ne, Bool-cases, ◌==◌, ==_iff, eq→==,
}
use mathlib.Core.Option
use native.Mathlib.Nat.{mod-lt}
use freepacket.Config.{SimConfig}
use freepacket.Parser.{FlowItem}
use freepacket.Parser.Direction.{SameKey}
use freepacket.Session.{
  Blist, Bucket, BucketState, HashTable, empty_bucket, find_list, payload_of, add_to_bucket,
  hash_add_item, hash_lookup_item,
}
use freepacket.Session.Find.{Found, find_list-Found}
use freepacket.Session.Keys.{stream, stream-none, stream-append, stream-hit, collected}
use freepacket.Session.Table.{BucketOk, PoolOk}
use freepacket.Session.Added.{add_bytes, CanAdd, IsAdded, IsBalanced}
use freepacket.Session.Add.{add_to_bucket_cases}

-- The bytes collected for a flow with that hash, if it has a session.
abbrev pub view : HashTable → ℕ → FlowItem → Option (List ℕ)
view ht key flow = Option.map collected (hash_lookup_item ht key flow)

-- The bucket of a hash.
abbrev pub bucket_of : HashTable → ℕ → Bucket
bucket_of ht key = get_or ht.buckets (key % ht.num_buckets) empty_bucket

pub record TableOk (limit : ℕ) (ht : HashTable) : Type 0 where
  pub some_buckets : 0 < ht.num_buckets
  pub cells : arr_length ht.buckets ≡ ht.num_buckets
  pub buckets_ok : All (BucketOk limit) ht.buckets
  pub pool_ok : PoolOk limit ht.session_pool

pub view-stream :
    (ht : HashTable) (key : ℕ) (flow : FlowItem)
    → view ht key flow ≡ stream (bucket_of ht key).list flow
unfolding hash_lookup_item
view-stream ht key flow =
    go (find_list (bucket_of ht key).list flow) (find_list-Found (bucket_of ht key).list flow)
  where
    go :
        (found : Option (List Blist × Blist × List Blist))
        → Found flow (bucket_of ht key).list found
        → Option.map collected (elim found [ none ↦ none | some (before, node, after) ↦ some node ])
          ≡ stream (bucket_of ht key).list flow
    go none miss = sym (stream-none _ flow miss)
    go (some (before, node, after)) (split, hit, miss) = sym (
        ap (λ nodes. stream nodes flow) split
        ∙ stream-append before (node ∷ after) flow miss
        ∙ stream-hit node after flow hit)

hash_add_item-run :
    (config : SimConfig) (now : ℕ) (ht : HashTable) (key : ℕ) (flow : FlowItem)
    (state : BucketState)
    → add_to_bucket config now flow (bucket_of ht key, ht.session_pool) ≡ returns state
    → hash_add_item config now ht key flow
      ≡ returns (record ht {
        buckets = set ht.buckets (key % ht.num_buckets) state.0;
        session_pool = state.1;
      })
unfolding hash_add_item
hash_add_item-run config now ht key flow state run = rw (hash_add_item, run)

hash_add_item-spins :
    (config : SimConfig) (now : ℕ) (ht : HashTable) (key : ℕ) (flow : FlowItem)
    → add_to_bucket config now flow (bucket_of ht key, ht.session_pool) ≡ spins
    → hash_add_item config now ht key flow ≡ spins
unfolding hash_add_item
hash_add_item-spins config now ht key flow waits = rw (hash_add_item, waits)

elsewhere :
    (limit : ℕ) (flow : FlowItem) (ht : HashTable) (key : ℕ) (state : BucketState)
    → IsAdded limit flow (bucket_of ht key) state
    → key % ht.num_buckets < arr_length ht.buckets
    → (key' : ℕ) (other : FlowItem)
    → (key' % ht.num_buckets ≢ key % ht.num_buckets) ⊎ (¬ SameKey flow other)
    → stream
        (get_or
          (set ht.buckets (key % ht.num_buckets) state.0)
          (key' % ht.num_buckets)
          empty_bucket).list
        other
      ≡ stream (bucket_of ht key').list other
elsewhere limit flow ht key state a inside key' other (inl miss) =
    ap (λ (b : Bucket). stream b.list other)
      (get_or-set_ne ht.buckets (key % ht.num_buckets) (key' % ht.num_buckets) state.0 empty_bucket
        (λ e. miss (sym e)))
elsewhere limit flow ht key state a inside key' other (inr apart) =
    elim (Bool-cases (key' % ht.num_buckets == key % ht.num_buckets)) [
      | inl e ↦
          let hit = (==_iff (key' % ht.num_buckets) (key % ht.num_buckets)).0 e in
          rw hit (
            ap (λ (b : Bucket). stream b.list other)
              (get_or-set_self ht.buckets (key % ht.num_buckets) state.0 empty_bucket inside)
            ∙ a.others other apart)
      | inr e ↦
          ap (λ (b : Bucket). stream b.list other)
            (get_or-set_ne ht.buckets (key % ht.num_buckets) (key' % ht.num_buckets) state.0
              empty_bucket (λ h. absurd (ground (arith, eq→== _ _ (sym h)))))
    ]

-- The table after a flow was added: sound, with the bytes of `add_bytes` for the flow, those it had
-- for any other, and as many nodes.
pub record IsUpdated (limit : ℕ) (flow : FlowItem) (key : ℕ) (ht ht' : HashTable) : Type 0 where
  pub state : BucketState
  pub placed : ht' ≡ record ht {
    buckets = set ht.buckets (key % ht.num_buckets) state.0;
    session_pool = state.1;
  }
  pub table_ok : TableOk limit ht'
  pub own : view ht' key flow ≡ add_bytes limit (view ht key flow) (payload_of flow)
  pub others :
      (key' : ℕ) (other : FlowItem)
      → (key' % ht.num_buckets ≢ key % ht.num_buckets) ⊎ (¬ SameKey flow other)
      → view ht' key' other ≡ view ht key' other
  pub balanced : IsBalanced (bucket_of ht key) ht.session_pool state

-- `hash_add_item` adds the flow, or waits for a node of a pool that is empty.
pub hash_add_item_cases :
    (limit : ℕ) (config : SimConfig) (now : ℕ) (ht : HashTable) (key : ℕ) (flow : FlowItem)
    → limit < 2 ^ 31
    → config.manager_buffer_size ≡ limit
    → TableOk limit ht
    → CanAdd limit flow (bucket_of ht key) ht.session_pool
    → ((ht' : HashTable) × (hash_add_item config now ht key flow ≡ returns ht')
        × IsUpdated limit flow key ht ht')
      ⊎ ((hash_add_item config now ht key flow ≡ spins)
          × (ht.session_pool.enqueue_count ≡ ht.session_pool.dequeue_count))
hash_add_item_cases limit config now ht key flow small size ok c =
    let i = key % ht.num_buckets in
    let inside : i < arr_length ht.buckets = omega (arith, ok.cells, mod-lt key ok.some_buckets) in
    elim (add_to_bucket_cases limit small config now flow (bucket_of ht key) ht.session_pool size
      c) [
        | inr (waits, empty) ↦ inr (hash_add_item-spins config now ht key flow waits, empty)
        | inl (state, run, a, balanced) ↦
            let ht' : HashTable = record ht {
              buckets = set ht.buckets i state.0;
              session_pool = state.1;
            } in
            let same : get_or (set ht.buckets i state.0) i empty_bucket ≡ state.0 =
              get_or-set_self ht.buckets i state.0 empty_bucket inside in
            inl (
              ht',
              hash_add_item-run config now ht key flow state run,
              record {
                state = state;
                placed = refl;
                table_ok = record {
                  some_buckets = ok.some_buckets;
                  cells = length-set ht.buckets i state.0 ∙ ok.cells;
                  buckets_ok =
                      All-set (BucketOk limit) ht.buckets i state.0 ok.buckets_ok a.bucket_ok;
                  pool_ok = a.pool_ok;
                };
                own =
                    view-stream ht' key flow
                    ∙ ap (λ (b : Bucket). stream b.list flow) same
                    ∙ a.own
                    ∙ ap (λ old. add_bytes limit old (payload_of flow))
                        (sym (view-stream ht key flow));
                others = λ key' other apart.
                    view-stream ht' key' other
                    ∙ elsewhere limit flow ht key state a inside key' other apart
                    ∙ sym (view-stream ht key' other);
                balanced = balanced;
              },
            )
      ]

-- With a sound table, buffers below 2 ^ 31 bytes, a session free, room in the pool for the sessions
-- of the bucket, and a payload that lies in its packet and fits a buffer, `hash_add_item` returns,
-- keeps the table sound, and is the update of the map at the flow: it starts a session with the
-- payload, appends the payload, or ends the session when the bytes would fill the buffer. Every
-- other flow, and every other bucket, has what it had.
pub hash_add_item-refines :
    (limit : ℕ) (config : SimConfig) (now : ℕ) (ht : HashTable) (key : ℕ) (flow : FlowItem)
    → limit < 2 ^ 31
    → config.manager_buffer_size ≡ limit
    → TableOk limit ht
    → CanAdd limit flow (bucket_of ht key) ht.session_pool
    → ht.session_pool.dequeue_count < ht.session_pool.enqueue_count
    → (ht' : HashTable) × (hash_add_item config now ht key flow ≡ returns ht')
      × TableOk limit ht'
      × (view ht' key flow ≡ add_bytes limit (view ht key flow) (payload_of flow))
      × ((key' : ℕ) (other : FlowItem)
          → (key' % ht.num_buckets ≢ key % ht.num_buckets) ⊎ (¬ SameKey flow other)
          → view ht' key' other ≡ view ht key' other)
hash_add_item-refines limit config now ht key flow small size ok c some_free =
    elim (hash_add_item_cases limit config now ht key flow small size ok c) [
      | inl (ht', run, u) ↦ (ht', run, u.table_ok, u.own, u.others)
      | inr (waits, empty) ↦ absurd (omega (arith, some_free, empty))
    ]
