-- ===== src/Session/Calls.antt =====
-- Calls of `hash_add_item` and `hash_travel_delete` on one table, in any order.
use freepacket.Base.{
  ℕ, suc, ◌+◌, ◌^◌, ◌≤◌, ◌<◌, ◌≡◌, ◌⊎◌, inl, inr, refl, List, [], ◌∷◌, Outcome, returns, spins,
  overruns, length as arr_length, All, arith,
}
use mathlib.Core.Path.{subst}
use mathlib.Core.List.{Perm}
use mathlib.Core.List.Perm
use freepacket.Session.Places.{nodes_of}
use freepacket.Config.{SimConfig}
use freepacket.Parser.{FlowItem}
use freepacket.Session.{HashTable, payload_of, hash_add_item, hash_travel_delete}
use freepacket.Session.Refine.{hash_add_item_cases}
use freepacket.Session.Sweep.{held}
use freepacket.Session.Life.{IsAlive, alive-CanAdd, updated-IsAlive, swept-IsAlive, IsAlive-less}

-- The calls on a table: a flow with its hash at a reading of the time stamp counter, or a round of
-- the thread that ends old sessions.
pub data Call : Type 0 where
  adds : ℕ → ℕ → FlowItem → Call
  sweeps : (ℕ → ℕ) → Call

unfoldable pub call : SimConfig → Call → HashTable → Outcome HashTable
call config (adds now key flow) ht = hash_add_item config now ht key flow
call config (sweeps now) ht = hash_travel_delete config now ht

-- Calls in some order. One that waits leaves its turn to the others.
unfoldable pub calls : SimConfig → List Call → HashTable → Outcome HashTable
calls config [] ht = returns ht
calls config (c ∷ cs) ht = elim (call config c ht) [
  | returns ht' ↦ calls config cs ht'
  | spins ↦ calls config cs ht
  | overruns ↦ overruns
]

-- The payload of a flow lies in its packet and fits a buffer.
abbrev pub Fits : ℕ → Call → Type 0
Fits limit (adds now key flow) =
    (arr_length (payload_of flow) ≡ flow.payload_len) × (flow.payload_len ≤ limit)
Fits limit (sweeps now) = Unit

module _ (limit n total : ℕ) (config : SimConfig) (small : limit < 2 ^ 31)
    (size : config.manager_buffer_size ≡ limit) where
  -- A call keeps the table alive, or waits for a node while none is free.
  pub call_cases :
      (c : Call) (ht : HashTable)
      → IsAlive limit (suc n) total ht
      → Fits limit c
      → ((ht' : HashTable) × (call config c ht ≡ returns ht')
          × IsAlive limit n total ht'
          × Perm (nodes_of ht) (nodes_of ht'))
        ⊎ ((call config c ht ≡ spins) × (held ht.buckets ≡ total))
  unfolding call
  call_cases (sweeps now) ht a fits = inl (swept-IsAlive limit n total config small size now ht a)
  call_cases (adds now key flow) ht a (inside, fits) =
      elim (hash_add_item_cases limit config now ht key flow small size a.table_ok
        (alive-CanAdd limit n total config small size key flow ht a inside fits)) [
          | inl (ht', run, u) ↦ inl (
            ht',
            run,
            (updated-IsAlive limit n total config small size key flow ht ht' a u).0,
            (updated-IsAlive limit n total config small size key flow ht ht' a u).1,
          )
          | inr (waits, empty) ↦ inr (waits, omega (arith, a.nodes, empty))
        ]

-- On a sound table with fewer than 2 ^ 32 - 1 nodes, a pool that can take them all and a counter
-- that the calls leave within 64 bits, the calls with flows whose payload lies in their packet and
-- fits a buffer, of less than 2 ^ 31 bytes, and the rounds of the thread that ends old sessions come
-- in any order. They return without an overrun, where one that finds no node free leaves its turn to the others. The table is
-- sound again, and the addresses of the nodes in sessions and in the pool are those of before in
-- some order: no node is lost or doubled.
pub calls-IsAlive :
    (limit n total : ℕ) (config : SimConfig) (cs : List Call) (ht : HashTable)
    → limit < 2 ^ 31
    → config.manager_buffer_size ≡ limit
    → All (Fits limit) cs
    → IsAlive limit (arr_length cs + n) total ht
    → (ht' : HashTable) × (calls config cs ht ≡ returns ht')
      × IsAlive limit n total ht'
      × Perm (nodes_of ht) (nodes_of ht')
unfolding calls
calls-IsAlive limit n total config [] ht small size fits a =
    (ht, refl, subst (λ k. IsAlive limit k total ht) (omega arith) a, Perm.refl (nodes_of ht))
calls-IsAlive limit n total config (c ∷ cs) ht small size (fit, fits) a =
    let a' : IsAlive limit (suc (arr_length cs + n)) total ht =
      subst (λ k. IsAlive limit k total ht) (omega arith) a in
    elim (call_cases limit (arr_length cs + n) total config small size c ht a' fit) [
      | inl (ht₁, run, b, same) ↦
          let (ht', rest, z, same') = calls-IsAlive limit n total config cs ht₁ small size fits b in
          (ht', rw (calls, run, rest), z, Perm.trans same same')
      | inr (waits, none_free) ↦
          let (ht', rest, z, same) =
            calls-IsAlive limit n total config cs ht small size fits
              (IsAlive-less limit (arr_length cs + n) total config small size ht a') in
          (ht', rw (calls, waits, rest), z, same)
    ]
