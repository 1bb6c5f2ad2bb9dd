-- ===== src/Session/Find.antt =====
-- `find_list` of packet_manager.c.
use freepacket.Base.{
  All, ◌≡◌, refl, ap, List, [], ◌∷◌, ◌++◌, Option, none, some, Bool, true, false, if◌then◌else◌,
}
use freepacket.Parser.{FlowItem}
use freepacket.Session.{Blist, matches, find_list}

-- No session of the list matches.
abbrev pub NoneMatches : FlowItem → List Blist → Type 0
NoneMatches flow nodes = All (λ node. matches node.item flow ≡ false) nodes

-- What a result of `find_list` means.
abbrev pub Found : FlowItem → List Blist → Option (List Blist × Blist × List Blist) → Type 0
Found flow list none = NoneMatches flow list
Found flow list (some (before, node, after)) =
    (list ≡ before ++ node ∷ after) × (matches node.item flow ≡ true) × NoneMatches flow before

-- `find_list` returns the first node that matches, and nothing exactly when none does.
pub find_list-Found : (list : List Blist) (flow : FlowItem) → Found flow list (find_list list flow)
unfolding find_list
find_list-Found [] flow = tt
find_list-Found (node ∷ nodes) flow =
    go (matches node.item flow) refl (find_list nodes flow) (find_list-Found nodes flow)
  where
    go :
        (b : Bool)
        → matches node.item flow ≡ b
        → (r : Option (List Blist × Blist × List Blist)) → Found flow nodes r
        → Found flow (node ∷ nodes) (
            if b then some ([], node, nodes) else elim r [
              | none ↦ none
              | some (before, found, after) ↦ some (node ∷ before, found, after)
            ])
    go true e r f = (refl, e, tt)
    go false e none f = (e, f)
    go false e (some (before, found, after)) (split, hit, miss) =
        (ap (λ xs. node ∷ xs) split, hit, (e, miss))
