-- ===== src/Session/Links.antt =====
-- The lists of hash.c through the links of list.h: `find_list` and the loop of `delete_session`
-- over the embedded nodes of a bucket give what the functions of Session say of its list.
use freepacket.Base.{
  ℕ, zero, suc, ◌<◌, ◌≡◌, refl, sym, ap, ◌∙◌, List, [], ◌∷◌, Bool, true, false, Option, none, some,
  map, length, Bool-cases, inl, inr, eq→==, ne→==, ◌==◌, ltb, sub64, arith,
}
use mathlib.Core.Path.{subst}
use freepacket.Parser.{FlowItem}
use freepacket.ListHead.{Links, delete_where}
use freepacket.ListHead.Chain.{Chain, NotIn, IsRing, first_or, Chain-first}
use freepacket.ListHead.Walk.{selected, kept, delete_where-IsRing}
use freepacket.Session.{Blist, SessionItem, matches, find_list}
use freepacket.Session.Young.{young}

-- The `struct blist` around a list head: its item is found by the address, as by `list_entry`.
abbrev pub node_at : (ℕ → SessionItem) → ℕ → Blist
node_at items p = record { address = p; item = items p }

-- The loop of `find_list` from `p` on. The outer `none` is a loop that still runs, the inner one
-- is `NULL`.
unfoldable pub find_from : (ℕ → SessionItem) → FlowItem → ℕ → ℕ → ℕ → Links → Option (Option ℕ)
find_from items flow zero head p s = none
find_from items flow (suc fuel) head p s = elim (p == head) [
  | true ↦ some none
  | false ↦ elim (matches (items p) flow) [
    | true ↦ some (some p)
    | false ↦ find_from items flow fuel head (s.next p) s
  ]
]

unfoldable pub find_node : (ℕ → SessionItem) → FlowItem → ℕ → ℕ → Links → Option (Option ℕ)
find_node items flow fuel head s = find_from items flow fuel head (s.next head) s

-- The test of `delete_session` on a node.
unfoldable pub expired : (ℕ → SessionItem) → ℕ → ℕ → ℕ → Bool
expired items limit now p = ltb limit (sub64 now (items p).last_time)

abbrev pub found_address : Option (List Blist × Blist × List Blist) → Option ℕ
found_address none = none
found_address (some (before, node, after)) = some node.address

module _ (items : ℕ → SessionItem) (flow : FlowItem) where
  found_address-cons :
      (x : ℕ) (rest : Option (List Blist × Blist × List Blist))
      → found_address (elim rest [
        | none ↦ none
        | some (before, found, after) ↦ some (node_at items x ∷ before, found, after)
      ])
        ≡ found_address rest
  found_address-cons x none = refl
  found_address-cons x (some (before, found, after)) = refl

  find_from-Chain :
      (s : Links) (a : ℕ) (xs : List ℕ) (head fuel : ℕ)
      → Chain s a xs head
      → NotIn head xs
      → length xs < fuel
      → find_from items flow fuel head (first_or xs head) s
        ≡ some (found_address (find_list (map (node_at items) xs) flow))
  unfolding find_from find_list
  find_from-Chain s a xs head zero c h lt = absurd (omega arith)
  find_from-Chain s a [] head (suc fuel) c h lt = rw (find_from, eq→== head head refl)
  find_from-Chain s a (x ∷ xs) head (suc fuel) (l, c) (hx, h) lt =
      let other = ne→== x head (λ e. hx (sym e)) in
      elim (Bool-cases (matches (items x) flow)) [
        | inl hit ↦ rw (find_from, other, hit)
        | inr miss ↦
            rw (find_from, other, miss, Chain-first s x xs head c)
              (find_from-Chain s x xs head fuel c h (omega arith)
                ∙ ap (λ o. some o)
                    (sym (found_address-cons x (find_list (map (node_at items) xs) flow))))
      ]

-- When the links of a bucket are a ring of nodes, with more fuel than nodes, the loop of
-- `find_list` ends, with the address of the node that `find_list` finds in the list of the nodes,
-- or with `NULL` when it finds none.
pub find_node-refines :
    (items : ℕ → SessionItem) (flow : FlowItem) (s : Links) (head : ℕ) (xs : List ℕ) (fuel : ℕ)
    → IsRing s head xs
    → length xs < fuel
    → find_node items flow fuel head s
      ≡ some (found_address (find_list (map (node_at items) xs) flow))
unfolding find_node
find_node-refines items flow s head xs fuel r lt =
    rw (Chain-first s head xs head r.chain)
      (find_from-Chain items flow s head xs head fuel r.chain r.apart lt)

kept-young :
    (items : ℕ → SessionItem) (limit now : ℕ) (xs : List ℕ)
    → kept (expired items limit now) xs
      ≡ map (λ (node : Blist). node.address) (young limit now (map (node_at items) xs))
unfolding young expired
kept-young items limit now [] = refl
kept-young items limit now (x ∷ xs) =
    elim (Bool-cases (ltb limit (sub64 now (items x).last_time))) [
      | inl old ↦ rw (kept, young, old) (kept-young items limit now xs)
      | inr fresh ↦ rw (kept, young, fresh) (ap (λ ys. x ∷ ys) (kept-young items limit now xs))
    ]

-- When the links of a bucket are a ring of nodes, with more fuel than nodes, the loop of
-- `delete_session` ends: it takes out the nodes whose sessions have expired, in order, and leaves
-- a ring of exactly the nodes that are not older than the limit.
pub delete_links-refines :
    (items : ℕ → SessionItem) (limit now : ℕ) (s : Links) (head : ℕ) (xs : List ℕ) (fuel : ℕ)
    → IsRing s head xs
    → length xs < fuel
    → (t : Links) × (delete_where (expired items limit now) fuel head s
        ≡ some (selected (expired items limit now) xs, t))
      × IsRing t head
          (map (λ (node : Blist). node.address) (young limit now (map (node_at items) xs)))
delete_links-refines items limit now s head xs fuel r lt =
    let (t, run, ring) = delete_where-IsRing (expired items limit now) head s xs fuel r lt in
    (t, run, subst (λ ys. IsRing t head ys) (kept-young items limit now xs) ring)
