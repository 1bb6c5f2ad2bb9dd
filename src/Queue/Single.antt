-- ===== src/Queue/Single.antt =====
-- The one-object operations, `NAME##_enqueue` and `NAME##_dequeue`.
use native.Mathlib.Nat.{mod-lt, one-le-pow, pow-le-pow_right}
use freepacket.Base.{
  ℕ, suc, ◌+◌, ◌-◌, ◌%◌, ◌^◌, ◌≤◌, ◌<◌, ◌≡◌, refl, sym, ◌∙◌, List, [], ◌∷◌, ◌++◌, Option, none,
  some, arith, get_or, set, length as arr_length, length-set, and-mask, u32, length-append,
  length-replicate, length-drop, Bool-cases, inl, inr, leb, leb→le, leb→lt, lt→leb, le→leb, Never,
  ◌==◌, ne→==, sub64, u64, sub32,
}
use freepacket.Queue.{Queue, capacity, slot, init, enqueue, dequeue}
use freepacket.Queue.Window.{window, window-set, length-window}
use freepacket.Queue.Fifo

-- The counters bracket the content, and no counter is at the end of its range.
pub record IsValid {ℓ} {A : Type ℓ} (q : Queue A) : Type ℓ where
  pub cells : capacity q ≡ arr_length q.node
  pub narrow : capacity q ≤ 2 ^ 31
  pub ordered : q.dequeue_count ≤ q.enqueue_count
  pub bounded : q.enqueue_count ≤ q.dequeue_count + capacity q
  pub counted : q.length ≡ q.enqueue_count - q.dequeue_count
  pub wide : q.enqueue_count < 2 ^ 64

module _ {ℓ} {A : Type ℓ} where
  pub capacity_pos : (q : Queue A) → 0 < capacity q
  capacity_pos q = one-le-pow q.log2_entries 2 (omega arith)

  -- The masked counter is the counter modulo the capacity, and lies in the array.
  pub slot_lem : {q : Queue A} (count : ℕ) → IsValid q → slot q count ≡ count % capacity q
  unfolding slot
  slot_lem {q} count v =
      rw (and-mask q.log2_entries count) (omega (arith, mod-lt count (capacity_pos q), v.narrow))

  pub slot-lt : {q : Queue A} (count : ℕ) → IsValid q → slot q count < arr_length q.node
  slot-lt {q} count v = omega (arith, slot_lem count v, mod-lt count (capacity_pos q), v.cells)

  -- One object stored, or taken, with counters that do not wrap.
  unfoldable pub stored : Queue A → A → Queue A
  stored q x = record q {
    node = set q.node (slot q q.enqueue_count) x;
    enqueue_count = q.enqueue_count + 1;
    length = u32 (q.length + 1);
  }

  unfoldable pub dropped : Queue A → Queue A
  dropped q = record q { dequeue_count = q.dequeue_count + 1; length = sub32 q.length 1 }

module _ {ℓ} {A : Type ℓ} (null : A) where
  -- The objects in the queue, oldest first.
  abbrev pub contents : Queue A → List A
  contents q = window null (capacity q) q.node q.dequeue_count (q.enqueue_count - q.dequeue_count)

  -- `q` has capacity `cap`, has taken `sent` objects in its life, and now holds `xs`.
  pub record Holds (cap sent : ℕ) (xs : List A) (q : Queue A) : Type ℓ where
    pub valid : IsValid q
    pub same_capacity : capacity q ≡ cap
    pub taken : q.enqueue_count ≡ sent
    pub holds : contents q ≡ xs

  -- Both fail, or both succeed with the queue holding what the specification says.
  abbrev pub Agrees : ℕ → ℕ → Option (Queue A) → Option (List A) → Type ℓ
  Agrees cap sent none none = Unit
  Agrees cap sent none (some xs) = Never
  Agrees cap sent (some q) none = Never
  Agrees cap sent (some q) (some xs) = Holds cap sent xs q

  -- The same with a value that is handed out.
  abbrev pub AgreesOut : {B : Type ℓ} → ℕ → ℕ → Option (B × Queue A) → Option (B × List A) → Type ℓ
  AgreesOut cap sent none none = Unit
  AgreesOut cap sent none (some r) = Never
  AgreesOut cap sent (some r) none = Never
  AgreesOut cap sent (some (b, q)) (some (c, xs)) = (b ≡ c) × Holds cap sent xs q

  -- A fresh queue of at most 2 ^ 31 cells is valid and empty, whatever the allocated memory holds.
  pub init-Holds :
      (log2_entries : ℕ) (memory : List A)
      → log2_entries ≤ 31
      → arr_length memory ≡ 2 ^ log2_entries
      → Holds (2 ^ log2_entries) 0 [] (init log2_entries null memory)
  unfolding init
  init-Holds k memory small cells = record {
    valid = record {
      cells = rw (length-append, length-replicate, length-drop, cells) (omega arith);
      narrow = pow-le-pow_right (omega arith) small;
      ordered = omega arith;
      bounded = omega arith;
      counted = refl;
      wide = omega arith;
    };
    same_capacity = refl;
    taken = refl;
    holds = refl;
  }

  module _ {q : Queue A} (v : IsValid q) where
    pub in_flight : sub64 q.enqueue_count q.dequeue_count ≡ q.enqueue_count - q.dequeue_count
    in_flight = omega (arith, v.ordered, v.wide)

    -- Below the capacity, storing one object at the counter and moving the counter on appends it.
    pub stored-Holds :
        (x : A)
        → q.enqueue_count - q.dequeue_count < capacity q
        → q.enqueue_count + 1 < 2 ^ 64
        → Holds (capacity q) (q.enqueue_count + 1) (contents q ++ x ∷ []) (stored q x)
    unfolding stored
    stored-Holds x room fits =
        let grown : q.enqueue_count + 1 - q.dequeue_count
            ≡ suc (q.enqueue_count - q.dequeue_count) =
          omega (arith, v.ordered) in
        record {
          valid = record {
            cells = v.cells ∙ sym (length-set q.node (slot q q.enqueue_count) x);
            narrow = v.narrow;
            ordered = omega (arith, v.ordered);
            bounded = omega arith;
            counted = omega (arith, v.counted, v.ordered, v.narrow);
            wide = omega arith;
          };
          same_capacity = refl;
          taken = refl;
          holds =
              rw (slot_lem q.enqueue_count v, grown)
                (window-set null (capacity q) q.node x q.dequeue_count _ q.enqueue_count v.cells
                  room (omega (arith, v.ordered)));
        }

    -- Moving the other counter on drops the oldest object.
    pub dropped-Holds :
        q.dequeue_count < q.enqueue_count
        → (contents q ≡ get_or q.node (slot q q.dequeue_count) null ∷ contents (dropped q))
          × IsValid (dropped q)
    unfolding dropped
    dropped-Holds more =
        let e : q.enqueue_count - q.dequeue_count ≡ suc (q.enqueue_count - (q.dequeue_count + 1)) =
          omega arith in
        (
          rw (slot_lem q.dequeue_count v, e),
          record {
            cells = v.cells;
            narrow = v.narrow;
            ordered = omega arith;
            bounded = omega (arith, v.bounded);
            counted = omega (arith, v.counted, v.bounded, v.narrow);
            wide = v.wide;
          },
        )

    pub enqueue_room :
        (x : A)
        → q.enqueue_count - q.dequeue_count < capacity q
        → q.enqueue_count + 1 < 2 ^ 64
        → enqueue q x ≡ some (stored q x)
    unfolding enqueue stored
    enqueue_room x room fits =
        let one : u64 (q.enqueue_count + 1) ≡ q.enqueue_count + 1 = omega arith in
        rw (in_flight, lt→leb _ _ room, one)

    enqueue_full : (x : A) → capacity q ≤ q.enqueue_count - q.dequeue_count → enqueue q x ≡ none
    unfolding enqueue
    enqueue_full x full = rw (in_flight, le→leb _ _ full)

    -- On a valid queue whose counter is not about to wrap at 2 ^ 64, `NAME##_enqueue` is the
    -- bounded push: it fails exactly when the queue is full, and otherwise appends the object.
    pub enqueue-refines :
        (x : A)
        → q.enqueue_count + 1 < 2 ^ 64
        → Agrees
            (capacity q)
            (q.enqueue_count + 1)
            (enqueue q x)
            (Fifo.push (capacity q) (contents q) x)
    unfolding Fifo.push
    enqueue-refines x fits =
        let n =
          length-window null (capacity q) q.node q.dequeue_count
            (q.enqueue_count - q.dequeue_count) in
        elim (Bool-cases (leb (capacity q) (q.enqueue_count - q.dequeue_count))) [
          | inl full ↦ rw (n, full, enqueue_full x (leb→le _ _ full)) tt
          | inr room ↦
              rw (n, room, enqueue_room x (leb→lt _ _ room) fits)
                (stored-Holds x (leb→lt _ _ room) fits)
        ]

    pub dequeue_more :
        q.dequeue_count < q.enqueue_count
        → dequeue null q ≡ some (get_or q.node (slot q q.dequeue_count) null, dropped q)
    unfolding dequeue dropped
    dequeue_more less =
        let one : u64 (q.dequeue_count + 1) ≡ q.dequeue_count + 1 = omega (arith, v.wide) in
        rw (ne→== q.enqueue_count q.dequeue_count (omega arith), one)

    -- On a valid queue `NAME##_dequeue` is the pop: it fails exactly on an empty queue, and
    -- otherwise hands out the oldest object.
    pub dequeue-refines :
        AgreesOut (capacity q) q.enqueue_count (dequeue null q) (Fifo.pop (contents q))
    unfolding dequeue dropped Fifo.pop
    dequeue-refines = elim (Bool-cases (q.enqueue_count == q.dequeue_count)) [
      | inl empty ↦ let e : q.enqueue_count - q.dequeue_count ≡ 0 = ground arith in rw (empty, e) tt
      | inr more ↦
          let less : q.dequeue_count < q.enqueue_count = ground (arith, v.ordered) in
          let (front, valid) = dropped-Holds less in
          rw (dequeue_more less, front)
            (refl, record { valid = valid; same_capacity = refl; taken = refl; holds = refl })
    ]
