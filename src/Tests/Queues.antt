-- ===== src/Tests/Queues.antt =====
-- The queues of queue_intel.h on small queues, young and old.
use freepacket.Base.{ℕ, ◌≡◌, refl, List, [], ◌∷◌, some, none, arith}
use freepacket.Queue.{Queue, slot, enqueue, enqueue_loop, enqueue_multiple, dequeue_multiple}
use freepacket.Queue.Single.{IsValid}
use freepacket.Queue.Wrap.{enqueue_multiple_breaks, dequeue_multiple_jams}
use freepacket.Queue.Run.{Op, put, put_all, get, get_many, run, spec_run, run-refines}

-- Four cells with three objects, of which the last has gone round.
abbrev young : Queue ℕ
young = record {
  log2_entries = 2;
  enqueue_count = 5;
  dequeue_count = 2;
  node = 14 ∷ 11 ∷ 12 ∷ 13 ∷ [];
  item_size = 8;
  total = 4;
  length = 3;
}

-- The same after 2 ^ 32 objects.
abbrev old : Queue ℕ
old = record young { enqueue_count = 0x100000003; dequeue_count = 0x100000000 }

young-IsValid : IsValid young
young-IsValid = record {
  cells = refl;
  narrow = omega arith;
  ordered = omega arith;
  bounded = omega arith;
  counted = refl;
  wide = omega arith;
}

old-IsValid : IsValid old
old-IsValid = record {
  cells = refl;
  narrow = omega arith;
  ordered = omega arith;
  bounded = omega arith;
  counted = refl;
  wide = omega arith;
}

abbrev calls : List (Op ℕ)
calls = put 15 ∷ put 16 ∷ get_many 3 ∷ put_all (17 ∷ 18 ∷ []) ∷ get ∷ get_many 9 ∷ []

run-refines_example : run 0 young calls ≡ spec_run 0 4 (12 ∷ 13 ∷ 14 ∷ []) calls
unfolding slot
run-refines_example =
    run-refines 0 calls {q = young} young-IsValid (omega arith)
      (tt, (tt, (omega arith, (tt, (tt, (omega arith, tt))))))

-- `old` after one more object.
abbrev broken : Queue ℕ
broken = record old { node = 14 ∷ 11 ∷ 12 ∷ 15 ∷ []; enqueue_count = 4; length = 4 }

broken_lem : enqueue_multiple old (15 ∷ []) ≡ some broken
unfolding enqueue_multiple enqueue_loop slot
broken_lem = refl

enqueue_multiple_breaks_example : ¬ IsValid broken
enqueue_multiple_breaks_example =
    enqueue_multiple_breaks old broken (15 ∷ []) (omega arith) broken_lem

-- Three objects, with two short of 2 ^ 32 taken out before.
abbrev late : Queue ℕ
late = record young { enqueue_count = 0x100000001; dequeue_count = 0xfffffffe }

late-IsValid : IsValid late
late-IsValid = record {
  cells = refl;
  narrow = omega arith;
  ordered = omega arith;
  bounded = omega arith;
  counted = omega arith;
  wide = omega arith;
}

dequeue_multiple_jams_example :
    (r : List ℕ × Queue ℕ) × (dequeue_multiple 0 late 2 ≡ some r) × ((x : ℕ) → enqueue r.1 x ≡ none)
dequeue_multiple_jams_example =
    dequeue_multiple_jams 0 late 2 late-IsValid (omega arith) (omega arith) (omega arith)
      (omega arith)
