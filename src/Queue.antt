-- ===== src/Queue.antt =====
-- The bounded queues and pools of queue_intel.h: what `INTEL_QUEUE(NAME, OBJ_TYPE, LOG2_ENTRIES,
-- FLAGS)` expands to. Each function is one critical section under its mutex; the mutexes and the
-- condition variables carry no data and are left out. `none` is the return value -1.
pub mod Window
pub mod Fifo
pub mod Single
pub mod Multiple
pub mod Batch
pub mod Wrap
pub mod Run
pub mod Fill
pub mod Rotate
use freepacket.Base.{
  ℕ, zero, suc, ◌+◌, ◌-◌, ◌^◌, ◌/◌, List, [], ◌∷◌, ◌++◌, Option, none, some, bit_and, get_or, set,
  drop, replicate, length, leb, ltb, ◌==◌, if◌then◌else◌, u32, u64, sub32, sub64,
}

-- `NAME##_t`, without the mutexes and condition variables. `log2_entries` is the macro's
-- argument; `node` has one cell for each entry.
pub record Queue {ℓ} (A : Type ℓ) : Type ℓ where
  pub log2_entries : ℕ
  pub enqueue_count : ℕ
  pub dequeue_count : ℕ
  pub node : List A
  pub item_size : ℕ
  pub total : ℕ
  pub length : ℕ

module _ {ℓ} {A : Type ℓ} where
  -- `1 << LOG2_ENTRIES`
  abbrev pub capacity : Queue A → ℕ
  capacity q = 2 ^ q.log2_entries

  -- `unsigned int i = count & ((1 << LOG2_ENTRIES) - 1)`
  unfoldable pub slot : Queue A → ℕ → ℕ
  slot q count = u32 (bit_and count (2 ^ q.log2_entries - 1))

  -- `NAME##_init`. `memory` is what `malloc` returned, `numbers` cells of 8 bytes of any content;
  -- `bzero(queue->node, numbers)` clears `numbers` bytes of it.
  unfoldable pub init : ℕ → A → List A → Queue A
  init log2_entries null memory =
      let numbers = 2 ^ log2_entries in
      record {
        log2_entries = log2_entries;
        enqueue_count = 0;
        dequeue_count = 0;
        node = replicate (numbers / 8) null ++ drop (numbers / 8) memory;
        item_size = 8;
        total = numbers;
        length = 0;
      }

  pub enqueue : Queue A → A → Option (Queue A)
  enqueue q data_in =
      if leb (capacity q) (sub64 q.enqueue_count q.dequeue_count)
      then none
      else some (record q {
        node = set q.node (slot q q.enqueue_count) data_in;
        enqueue_count = u64 (q.enqueue_count + 1);
        length = u32 (q.length + 1);
      })

  -- The loop of `NAME##_enqueue_multiple` over the objects left. `count` is the local
  -- `unsigned int enqueue_count`; the counter of the queue is stored after the loop.
  unfoldable pub enqueue_loop : Queue A → ℕ → List A → Queue A
  enqueue_loop q count [] = record q { enqueue_count = count }
  enqueue_loop q count (x ∷ xs) =
      enqueue_loop (record q { node = set q.node (slot q count) x; length = u32 (q.length + 1) })
        (u32 (count + 1)) xs

  -- `enqueue_num` is the number of objects in `objects`.
  unfoldable pub enqueue_multiple : Queue A → List A → Option (Queue A)
  enqueue_multiple q objects =
      if ltb (capacity q) (sub64 (u64 (q.enqueue_count + length objects)) q.dequeue_count)
      then none
      else some (enqueue_loop q (u32 q.enqueue_count) objects)

  -- The value that goes through `*data` and the queue. `null` stands for a read out of range,
  -- which `slot-lt` rules out.
  pub dequeue : A → Queue A → Option (A × Queue A)
  dequeue null q =
      if q.enqueue_count == q.dequeue_count
      then none
      else some (
        get_or q.node (slot q q.dequeue_count) null,
        record q { dequeue_count = u64 (q.dequeue_count + 1); length = sub32 q.length 1 },
      )

  -- The loop of `NAME##_dequeue_multiple`, with `dequeue_num` rounds left.
  pub dequeue_loop : A → Queue A → ℕ → ℕ → List A × Queue A
  dequeue_loop null q count zero = ([], record q { dequeue_count = count })
  dequeue_loop null q count (suc dequeue_num) =
      let (out, q') =
        dequeue_loop null (record q { length = sub32 q.length 1 }) (u32 (count + 1)) dequeue_num in
      (get_or q.node (slot q count) null ∷ out, q')

  pub dequeue_multiple : A → Queue A → ℕ → Option (List A × Queue A)
  dequeue_multiple null q dequeue_num =
      if ltb q.enqueue_count (u64 (q.dequeue_count + dequeue_num))
      then none
      else some (dequeue_loop null q (u32 q.dequeue_count) dequeue_num)
