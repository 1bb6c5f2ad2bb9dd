-- ===== src/Generator/Payload.antt =====
-- `pop_payload` of packet_generator.c: the loop that fills the payload.
use native.Mathlib.Decide.{dec_lt}
use native.Mathlib.Nat.{mod-eq_of_lt, mod-eq-sub-mod}
use freepacket.Base.{
  ℕ, zero, suc, ◌+◌, ◌-◌, ◌%◌, ◌^◌, ◌≤◌, ◌<◌, ◌≡◌, ◌⊎◌, inl, inr, refl, sym, ap, ◌∙◌, List, [], ◌∷◌,
  none, some, arith, length, length-take, take, sub32, int_lt, int_lt-ltb, ltb, true, false,
  Bool-cases, ltb→lt, ltb→le, get_or, lt→leb, lt→ltb, le→ltb,
}
use freepacket.Memory.{write, load8}
use freepacket.Memory.Frame.{length-write, load8-write_out, load8-write_in}
use freepacket.Generator.{fill, fill_payload}

-- `out` is `buf` with the bytes `start … start + j` replaced by the text, over and over.
pub record IsFilled (text : List ℕ) (start j : ℕ) (buf out : List ℕ) : Type 0 where
  pub same_length : length out ≡ length buf
  pub inside : (k : ℕ) → k < j → load8 out (start + k) ≡ load8 text (k % length text)
  pub outside : (k : ℕ) → (k < start) ⊎ (start + j ≤ k) → load8 out k ≡ load8 buf k

get_or-take : (xs : List ℕ) (n k : ℕ) → k < n → get_or (take n xs) k 0 ≡ get_or xs k 0
get_or-take xs zero k h = absurd (omega arith)
get_or-take [] (suc n) k h = refl
get_or-take (x ∷ xs) (suc n) zero h = refl
get_or-take (x ∷ xs) (suc n) (suc k) h = get_or-take xs n k (omega arith)

module _ (text : List ℕ) (some_text : 0 < length text) (short : length text < 2 ^ 31) where
  -- The last `memcpy`.
  fill_last :
      (buf : List ℕ) (start j : ℕ)
      → j ≤ length text
      → start + j ≤ length buf
      → IsFilled text start j buf (write buf start (take j text))
  fill_last buf start j le room = record {
    same_length = length-write (take j text) buf start;
    inside = λ k h.
        load8-write_in (take j text) buf start k (start + k) (omega (arith, length-take j text))
          (omega (arith, length-take j text)) refl
        ∙ get_or-take text j k h
        ∙ ap (load8 text) (sym (mod-eq_of_lt (omega arith)));
    outside = λ k h.
        load8-write_out (take j text) buf start k
          (elim h [ inl p ↦ inl p | inr p ↦ inr (omega (arith, length-take j text)) ]);
  }

  -- One round of the loop: the text once, then the rest.
  fill_round :
      (buf out : List ℕ) (start j : ℕ)
      → length text < j
      → start + j ≤ length buf
      → IsFilled text (start + length text) (j - length text) (write buf start text) out
      → IsFilled text start j buf out
  fill_round buf out start j more room f = record {
    same_length = f.same_length ∙ length-write text buf start;
    inside = λ k h. elim (dec_lt k (length text)) [
      | yes first ↦
          f.outside (start + k) (inl (omega arith))
          ∙ load8-write_in text buf start k (start + k) (omega arith) first refl
          ∙ ap (load8 text) (sym (mod-eq_of_lt first))
      | no later ↦
          let e : start + length text + (k - length text) ≡ start + k = omega arith in
          rw e at (f.inside (k - length text) (omega arith))
          ∙ ap (load8 text) (sym (mod-eq-sub-mod {n = k} {m = length text} (omega arith)))
    ];
    outside = λ k h. elim h [
      | inl p ↦ f.outside k (inl (omega arith)) ∙ load8-write_out text buf start k (inl p)
      | inr p ↦
          f.outside k (inr (omega arith)) ∙ load8-write_out text buf start k (inr (omega arith))
    ];
  }

  fill_more :
      (fuel : ℕ) (buf : List ℕ) (start j : ℕ)
      → length text < j
      → j < 2 ^ 31
      → fill (suc fuel) buf start text j
        ≡ fill fuel (write buf start text) (start + length text) text (j - length text)
  unfolding fill
  fill_more fuel buf start j more small =
      let test : int_lt (length text) j ≡ true =
        int_lt-ltb (length text) j short small ∙ lt→ltb _ _ more in
      let less : sub32 j (length text) ≡ j - length text = omega arith in rw (test, fill, less)

  -- With text to repeat the loop ends within `j + 1` tests.
  fill-IsFilled :
      (fuel : ℕ) (buf : List ℕ) (start j : ℕ)
      → j < fuel
      → j < 2 ^ 31
      → start + j ≤ length buf
      → (out : List ℕ) × (fill fuel buf start text j ≡ some out) × IsFilled text start j buf out
  unfolding fill
  fill-IsFilled zero buf start j h small room = absurd (omega arith)
  fill-IsFilled (suc fuel) buf start j h small room =
      let signed = int_lt-ltb (length text) j short small in
      elim (Bool-cases (ltb (length text) j)) [
        | inl more ↦
            let lt = ltb→lt _ _ more in
            let (out, run, f) =
              fill-IsFilled fuel (write buf start text) (start + length text) (j - length text)
                (omega arith) (omega arith) (omega (arith, length-write text buf start)) in
            (out, fill_more fuel buf start j lt small ∙ run, fill_round buf out start j lt room f)
        | inr last ↦ (
          write buf start (take j text),
          rw (signed ∙ last, fill),
          fill_last buf start j (ltb→le _ _ last) room,
        )
      ]

  -- With a text that is not empty and below 2 ^ 31 characters, room in the buffer for the `j`
  -- bytes wanted, `j` below 2 ^ 31 and fuel above `j`, `pop_payload` ends, repeats the text over
  -- them and changes nothing else.
  pub fill_payload-IsFilled :
      (fuel : ℕ) (buf : List ℕ) (off j : ℕ)
      → j < fuel
      → j < 2 ^ 31
      → off + j ≤ length buf
      → (out : List ℕ) × (fill_payload fuel buf off text j ≡ some out) × IsFilled text off j buf out
  unfolding fill_payload
  fill_payload-IsFilled fuel buf off j enough small room =
      let signed = int_lt-ltb j (length text) small short in
      elim (Bool-cases (ltb j (length text))) [
        | inl long ↦
            let once = write buf off (take j text) in
            let same = length-write (take j text) buf off in
            let (out, run, f) = fill-IsFilled fuel once off j enough small (omega (arith, same)) in
            (
              out,
              rw (signed, long, lt→leb (2 ^ 31) j small, run),
              record {
                same_length = f.same_length ∙ same;
                inside = f.inside;
                outside = λ k h.
                    f.outside k h
                    ∙ (fill_last buf off j (omega (arith, ltb→lt _ _ long)) room).outside k h;
              },
            )
        | inr fits ↦
            let (out, run, f) = fill-IsFilled fuel buf off j enough small room in
            (out, rw (signed, fits, run), f)
      ]

-- With an empty text and a payload to fill the loop never ends, whatever the fuel.
fill_empty :
    (fuel : ℕ) (buf : List ℕ) (start j : ℕ) → 0 < j → j < 2 ^ 31 → fill fuel buf start [] j ≡ none
unfolding fill
fill_empty zero buf start j pos small = refl
fill_empty (suc fuel) buf start j pos small =
    let more : int_lt 0 j ≡ true = int_lt-ltb 0 j (omega arith) small ∙ lt→ltb _ _ pos in
    let less : sub32 j 0 ≡ j = omega arith in
    rw (more, fill, less) (fill_empty fuel (write buf start []) (start + 0) j pos small)

-- With an empty text and from 1 to 2 ^ 31 - 1 bytes wanted, `pop_payload` is still running after
-- any number of rounds.
pub fill_payload_hangs :
    (fuel : ℕ) (buf : List ℕ) (off j : ℕ)
    → 0 < j
    → j < 2 ^ 31
    → fill_payload fuel buf off [] j ≡ none
unfolding fill_payload
fill_payload_hangs fuel buf off j pos small =
    let e : int_lt j 0 ≡ false = int_lt-ltb j 0 small (omega arith) ∙ le→ltb _ _ (omega arith) in
    rw e (fill_empty fuel buf off j pos small)
