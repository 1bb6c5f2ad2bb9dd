-- ===== src/Pipeline/Schedule.antt =====
-- Any order of the turns of a generator and a parser around one pool.
use freepacket.Base.{
  ℕ, suc, ◌+◌, ◌≤◌, ◌≡◌, ◌⊎◌, inl, inr, refl, List, [], ◌∷◌, length, returns, spins, arith, ltb,
  Bool-cases, ltb→lt, ltb→le, arith,
}
use mathlib.Core.List.Perm
use mathlib.Core.Path.{subst}
use freepacket.Config.{SimConfig}
use freepacket.Parser.Loop.{batch}
use freepacket.Pipeline.Circle.{Pair, Turn, generator_turn, parser_turn, ring, turn, run, circle}
use freepacket.Pipeline.Sound.{held, IsSound, IsMoved, Idle, IsSound-less}
use freepacket.Pipeline.Turns.{generator_moves, parser_moves, generator_waits, parser_waits}

module _ (n all now : ℕ) (config : SimConfig) (depth : config.pipe_depth ≡ 2) where
  -- A turn moves packets on, or waits because there are none for it.
  turn_cases :
      (t : Turn) (s : Pair)
      → IsSound (suc n) all now s
      → ((s' : Pair) × (turn config t s ≡ returns s') × IsMoved n all now s s')
        ⊎ ((turn config t s ≡ spins) × Idle t s)
  turn_cases generator_turn s h = elim (Bool-cases (ltb 0 (held s.generator.pool))) [
    | inl some_there ↦
        let (s', went, m, kept) =
          generator_moves n all now config s h (ltb→lt _ _ some_there) (rw depth refl) in
        inl (s', went, m)
    | inr empty ↦
        let e : held s.generator.pool ≡ 0 = omega (arith, ltb→le _ _ empty) in
        inr (generator_waits n all now config s h e, e)
  ]
  turn_cases parser_turn s h = elim (Bool-cases (ltb (held (ring s)) batch)) [
    | inl few ↦ inr (parser_waits n all now config s h (ltb→lt _ _ few), ltb→lt _ _ few)
    | inr enough ↦ inl (parser_moves n all now config s h (ltb→le _ _ enough) depth)
  ]

  -- With a batch of packets one of the two threads can move.
  one_moves :
      (s : Pair)
      → IsSound (suc n) all now s
      → batch ≤ now
      → (t : Turn) × (s' : Pair) × (turn config t s ≡ returns s') × IsMoved n all now s s'
  one_moves s h many = elim (turn_cases generator_turn s h) [
    | inl (s', went, m) ↦ (generator_turn, s', went, m)
    | inr (waits, empty) ↦
        let (s', went, m) =
          parser_moves n all now config s h (omega (arith, h.total, empty)) depth in
        (parser_turn, s', went, m)
  ]

module _ (n all now : ℕ) (config : SimConfig) (depth : config.pipe_depth ≡ 2) where
  -- One generator and one parser at a pipeline depth of 2, with valid queues that can each take all
  -- their packets and counters that the turns leave within 32 bits: rounds of the two in any order
  -- return without an overrun, where a thread that finds no packets leaves its turn to the other.
  -- The conditions hold again, and the addresses and lengths of the packets in the pool and the
  -- queue are those of before in some order: no packet is lost or doubled.
  pub run-IsMoved :
      (ts : List Turn) (s : Pair)
      → IsSound (length ts + n) all now s
      → (s' : Pair) × (run config ts s ≡ returns s') × IsMoved n all now s s'
  unfolding run
  run-IsMoved [] s h = (
    s,
    refl,
    record {
      sound = subst (λ k. IsSound k all now s) (omega arith) h;
      same = Perm.refl (circle s);
    },
  )
  run-IsMoved (t ∷ ts) s h =
      let h' : IsSound (suc (length ts + n)) all now s =
        subst (λ k. IsSound k all now s) (omega arith) h in
      elim (turn_cases (length ts + n) all now config depth t s h') [
        | inl (s₁, ran, m) ↦
            let (s', rest, m') = run-IsMoved ts s₁ m.sound in
            (s', rw (run, ran, rest), record { sound = m'.sound; same = Perm.trans m.same m'.same })
        | inr (waits, idle) ↦
            let (s', rest, m') = run-IsMoved ts s (IsSound-less (length ts + n) all now s h') in
            (s', rw (run, waits, rest), m')
      ]

-- Under the conditions of `run-IsMoved`, for one turn more, and with at least 64 packets: after
-- rounds of the two threads in any order, a round of one of them returns and loses no packet. The
-- two never wait for each other for ever.
pub run-lives :
    (n all now : ℕ) (config : SimConfig) (ts : List Turn) (s : Pair)
    → config.pipe_depth ≡ 2
    → batch ≤ now
    → IsSound (length ts + suc n) all now s
    → (s' : Pair) × (t : Turn) × (s'' : Pair) × (run config ts s ≡ returns s')
      × (turn config t s' ≡ returns s'')
      × IsMoved n all now s' s''
run-lives n all now config ts s depth many h =
    let (s', ran, m) = run-IsMoved (suc n) all now config depth ts s h in
    let (t, s'', went, m') = one_moves n all now config depth s' m.sound many in
    (s', t, s'', ran, went, m')
