-- ===== src/Manager/Sessions.antt =====
-- The table of a manager, from its start on.
use freepacket.Base.{ℕ, zero, suc, ◌+◌, ◌*◌, ◌^◌, ◌<◌, ◌≡◌, refl, ap, replicate, arith}
use mathlib.Core.Path.{subst}
use freepacket.Config.{SimConfig}
use freepacket.Queue.{Queue}
use freepacket.Parser.{FlowItem}
use freepacket.Session.{HashTable, empty_bucket}
use freepacket.Session.Refine.{TableOk}
use freepacket.Session.Sweep.{held}
use freepacket.Session.Life.{IsAlive}
use freepacket.Manager.Ready.{IsReady}

held-replicate : (k : ℕ) → held (replicate k empty_bucket) ≡ 0
unfolding held
held-replicate zero = refl
held-replicate (suc k) = omega (arith, held-replicate k)

-- A table without sessions whose pool has all of its nodes.
pub fresh-IsAlive :
    (limit n : ℕ) (config : SimConfig) (queue : Queue FlowItem) (ht : HashTable)
    → config.manager_buffer_size ≡ limit
    → IsReady config queue ht
    → 2 ^ 16 + n * (2 ^ 16 + 1) < 2 ^ 64
    → IsAlive limit n (2 ^ 16) ht
fresh-IsAlive limit n config queue ht size ready counter =
    let ok : TableOk limit ht = subst (λ l. TableOk l ht) size ready.table_ok in
    record {
      table_ok = ok;
      nodes = omega (arith, ready.nodes, ap held ready.no_sessions, held-replicate ht.num_buckets);
      room = omega (arith, ready.nodes, ok.pool_ok.valid.bounded);
      few = omega arith;
      counter = omega (arith, ready.counter, counter);
    }
