-- ===== src/Pipeline/Handed.antt =====
-- The packets and the flow items of a batch that a parser hands to the managers.
use freepacket.Base.{
  ℕ, ◌≡◌, refl, sym, ap, ◌∙◌, List, [], ◌∷◌, ◌++◌, append_assoc, length, take, drop,
  take-append-drop, arith,
}
use mathlib.Core.List.{Perm, perm_append_comm, map-append}
use mathlib.Core.List.Perm
use freepacket.Base.Places.{swap_front, same_Perm}
use mathlib.Core.Path.{subst}
use freepacket.Parser.{Packet, FlowItem, make_flow_item_tcp}
use freepacket.Parser.Loop.{make_flows}
use freepacket.Pipeline.Circle.{Tag, tag, tags}
use freepacket.Pipeline.Trio.{packets_of, addresses}

-- The flows that a parser makes have its packets.
pub packets_of-make_flows :
    (items : List FlowItem) (ps : List Packet)
    → length items ≡ length ps
    → packets_of (make_flows items ps) ≡ tags ps
unfolding make_flows make_flow_item_tcp
packets_of-make_flows [] [] h = refl
packets_of-make_flows [] (p ∷ ps) h = absurd (omega (arith, h))
packets_of-make_flows (item ∷ items) [] h = absurd (omega (arith, h))
packets_of-make_flows (item ∷ items) (p ∷ ps) h =
    ap (λ as'. tag p ∷ as') (packets_of-make_flows items ps (omega (arith, h)))

-- A part that moves from the front of one list to the front of the next.
front_moves : (xs ys zs : List Tag) → Perm ((xs ++ ys) ++ zs) (ys ++ (xs ++ zs))
front_moves xs ys zs =
    subst (λ us. Perm ((xs ++ ys) ++ zs) us) (append_assoc ys xs zs)
      (Perm.append_right zs (perm_append_comm xs ys))

-- They are the items that were free.
pub addresses-make_flows :
    (items : List FlowItem) (ps : List Packet)
    → length items ≡ length ps
    → addresses (make_flows items ps) ≡ addresses items
unfolding make_flows make_flow_item_tcp
addresses-make_flows [] [] h = refl
addresses-make_flows [] (p ∷ ps) h = absurd (omega (arith, h))
addresses-make_flows (item ∷ items) [] h = absurd (omega (arith, h))
addresses-make_flows (item ∷ items) (p ∷ ps) h =
    ap (λ as'. item.address ∷ as') (addresses-make_flows items ps (omega (arith, h)))

-- The oldest items of the pool are with the managers.
pub items_handed :
    (k : ℕ) (ys old new made : List FlowItem)
    → addresses made ≡ addresses (take k ys)
    → Perm new (made ++ old)
    → Perm (addresses (ys ++ old)) (addresses (drop k ys ++ new))
items_handed k ys old new made same moved =
    let f : FlowItem → ℕ = λ i. i.address in
    let front = addresses (take k ys) in
    let rest = addresses (drop k ys) in
    let start : addresses (ys ++ old) ≡ front ++ (rest ++ addresses old) =
      ap (λ zs. addresses (zs ++ old)) (sym (take-append-drop k ys))
      ∙ ap addresses (append_assoc (take k ys) (drop k ys) old)
      ∙ map-append f (take k ys) (drop k ys ++ old)
      ∙ ap (λ zs. front ++ zs) (map-append f (drop k ys) old) in
    let back : front ++ addresses old ≡ addresses (made ++ old) =
      ap (λ zs. zs ++ addresses old) (sym same) ∙ sym (map-append f made old) in
    Perm.trans (same_Perm start) (
      Perm.trans (swap_front front rest (addresses old)) (
        Perm.trans
          (Perm.append_left rest (Perm.trans (same_Perm back) (Perm.symm (Perm.map f moved))))
          (same_Perm (sym (map-append f (drop k ys) new)))))

-- The oldest packets of the queue are with the managers.
pub handed_on :
    (k : ℕ) (xs ys : List Packet) (old new made : List FlowItem)
    → packets_of made ≡ tags (take k xs)
    → Perm new (made ++ old)
    → Perm (tags (xs ++ ys) ++ packets_of old) (tags (drop k xs ++ ys) ++ packets_of new)
handed_on k xs ys old new made same moved =
    let front : tags (xs ++ ys) ≡ tags (take k xs) ++ tags (drop k xs ++ ys) =
      ap (λ zs. tags (zs ++ ys)) (sym (take-append-drop k xs))
      ∙ ap tags (append_assoc (take k xs) (drop k xs) ys)
      ∙ map-append tag (take k xs) (drop k xs ++ ys) in
    let back : packets_of (made ++ old) ≡ tags (take k xs) ++ packets_of old =
      map-append (λ (f : FlowItem). tag f.packet) made old ∙ ap (λ zs. zs ++ packets_of old) same in
    let there = front_moves (tags (take k xs)) (tags (drop k xs ++ ys)) (packets_of old) in
    Perm.trans
      (subst
        (λ zs.
          Perm (zs ++ packets_of old)
            (tags (drop k xs ++ ys) ++ (tags (take k xs) ++ packets_of old)))
        (sym front) there)
      (Perm.append_left (tags (drop k xs ++ ys)) (
        subst (λ zs. Perm zs (packets_of new)) back
          (Perm.symm (Perm.map (λ (f : FlowItem). tag f.packet) moved))))
