-- ===== src/Session/Distinct.antt =====
-- Lists of sessions with at most one session of a flow.
use freepacket.Base.{
  ◌≡◌, sym, ◌∙◌, List, [], ◌∷◌, ◌++◌, true, false, arith, All-append, All-split, Bool-cases, inl,
  inr,
}
use freepacket.Parser.{FlowItem}
use freepacket.Session.{Blist, matches}
use freepacket.Session.Find.{NoneMatches}
use freepacket.Session.Keys.{matches-HasKey, HasKey-SameKey, matches_congr}

-- At most one session of a flow.
abbrev pub Distinct : List Blist → Type 0
Distinct [] = Unit
Distinct (node ∷ nodes) =
    ((flow : FlowItem) → matches node.item flow ≡ true → NoneMatches flow nodes) × Distinct nodes

-- A session is the only one of its flow.
pub Distinct-after :
    (before : List Blist) (node : Blist) (after : List Blist) (flow : FlowItem)
    → Distinct (before ++ node ∷ after)
    → matches node.item flow ≡ true
    → NoneMatches flow after
Distinct-after [] node after flow (d, ds) hit = d flow hit
Distinct-after (first ∷ before) node after flow (d, ds) hit =
    Distinct-after before node after flow ds hit

pub Distinct-remove :
    (before : List Blist) (node : Blist) (after : List Blist)
    → Distinct (before ++ node ∷ after)
    → Distinct (before ++ after)
Distinct-remove [] node after (d, ds) = ds
Distinct-remove (first ∷ before) node after (d, ds) = (
  λ flow hit.
      let (a, b) =
        All-split (λ n. matches n.item flow ≡ false) before (node ∷ after) (d flow hit) in
      All-append (λ n. matches n.item flow ≡ false) before after a b.1,
  Distinct-remove before node after ds,
)

-- A session may be changed as long as it stays that of the same flows.
pub Distinct-replace :
    (before : List Blist) (node node' : Blist) (after : List Blist)
    → ((flow : FlowItem) → matches node'.item flow ≡ matches node.item flow)
    → Distinct (before ++ node ∷ after)
    → Distinct (before ++ node' ∷ after)
Distinct-replace [] node node' after same (d, ds) = (λ flow hit. d flow (sym (same flow) ∙ hit), ds)
Distinct-replace (first ∷ before) node node' after same (d, ds) = (
  λ flow hit.
      let (a, b) =
        All-split (λ n. matches n.item flow ≡ false) before (node ∷ after) (d flow hit) in
      All-append (λ n. matches n.item flow ≡ false) before (node' ∷ after) a (same flow ∙ b.0, b.1),
  Distinct-replace before node node' after same ds,
)

-- A session of a flow that none of the others is for may be added.
pub Distinct-add :
    (nodes : List Blist) (node : Blist) (flow : FlowItem)
    → matches node.item flow ≡ true
    → NoneMatches flow nodes
    → Distinct nodes
    → Distinct (nodes ++ node ∷ [])
Distinct-add [] node flow own miss d = (λ g hit. tt, tt)
Distinct-add (first ∷ nodes) node flow own (e, miss) (d, ds) = (
  λ g hit. All-append (λ n. matches n.item g ≡ false) nodes (node ∷ []) (d g hit) (apart g hit, tt),
  Distinct-add nodes node flow own miss ds,
)
  where
    apart : (g : FlowItem) → matches first.item g ≡ true → matches node.item g ≡ false
    apart g hit = elim (Bool-cases (matches node.item g)) [
      | inl both ↦
          let same =
            HasKey-SameKey (matches-HasKey node.item flow own) (matches-HasKey node.item g both) in
          absurd (ground (arith, matches_congr first.item flow g same))
      | inr apart' ↦ apart'
    ]
