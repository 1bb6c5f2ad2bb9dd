-- ===== src/Session/Keys.antt =====
-- The comparison of a session with a flow, and the bytes that a list of sessions has for a flow.
use freepacket.Base.{
  ℕ, ◌≡◌, refl, sym, ap, ◌∙◌, List, [], ◌∷◌, ◌++◌, Option, none, some, Bool, true, false, arith,
  ◌==◌, ==_iff, eq→==, if◌then◌else◌, take, ◌&&◌,
}
use freepacket.Parser.{FlowItem}
use freepacket.Parser.Direction.{SameKey}
use freepacket.Session.{Blist, SessionItem, matches}
use freepacket.Session.Find.{NoneMatches}

-- The session is the one of the flow.
pub record HasKey (item : SessionItem) (flow : FlowItem) : Type 0 where
  pub protocol : item.protocol ≡ flow.protocol
  pub upper_ip : item.upper_ip ≡ flow.upper_ip
  pub lower_ip : item.lower_ip ≡ flow.lower_ip
  pub upper_port : item.upper_port ≡ flow.upper_port
  pub lower_port : item.lower_port ≡ flow.lower_port

and-five :
    (a b c d e : Bool)
    → a && b && c && d && e ≡ true
    → (a ≡ true) × (b ≡ true) × (c ≡ true) × (d ≡ true) × (e ≡ true)
and-five true true true true true h = (refl, refl, refl, refl, refl)
and-five true true true true false h = absurd (ground arith)
and-five true true true false e h = absurd (ground arith)
and-five true true false d e h = absurd (ground arith)
and-five true false c d e h = absurd (ground arith)
and-five false b c d e h = absurd (ground arith)

pub matches-HasKey :
    (item : SessionItem) (flow : FlowItem) → matches item flow ≡ true → HasKey item flow
unfolding matches
matches-HasKey item flow h =
    let (a, b, c, d, e) =
      and-five (item.protocol == flow.protocol) (item.upper_ip == flow.upper_ip)
        (item.lower_ip == flow.lower_ip) (item.upper_port == flow.upper_port)
        (item.lower_port == flow.lower_port) h in
    record {
      protocol = (==_iff item.protocol flow.protocol).0 a;
      upper_ip = (==_iff item.upper_ip flow.upper_ip).0 b;
      lower_ip = (==_iff item.lower_ip flow.lower_ip).0 c;
      upper_port = (==_iff item.upper_port flow.upper_port).0 d;
      lower_port = (==_iff item.lower_port flow.lower_port).0 e;
    }

pub HasKey-matches :
    (item : SessionItem) (flow : FlowItem) → HasKey item flow → matches item flow ≡ true
unfolding matches
HasKey-matches item flow k = rw (
  eq→== _ _ k.protocol,
  eq→== _ _ k.upper_ip,
  eq→== _ _ k.lower_ip,
  eq→== _ _ k.upper_port,
  eq→== _ _ k.lower_port,
)

-- A session that is the one of two flows makes them one flow.
pub HasKey-SameKey :
    {item : SessionItem} {f g : FlowItem} → HasKey item f → HasKey item g → SameKey f g
HasKey-SameKey k l = record {
  upper_ip = sym k.upper_ip ∙ l.upper_ip;
  lower_ip = sym k.lower_ip ∙ l.lower_ip;
  upper_port = sym k.upper_port ∙ l.upper_port;
  lower_port = sym k.lower_port ∙ l.lower_port;
  protocol = sym k.protocol ∙ l.protocol;
}

pub matches_congr :
    (item : SessionItem) (f g : FlowItem) → SameKey f g → matches item f ≡ matches item g
unfolding matches
matches_congr item f g s = rw (s.protocol, s.upper_ip, s.lower_ip, s.upper_port, s.lower_port)

-- The bytes that a session has collected.
abbrev pub collected : Blist → List ℕ
collected node = take node.item.cur_len node.item.buffer

-- The bytes that the sessions of a list have for a flow.
unfoldable pub stream : List Blist → FlowItem → Option (List ℕ)
stream [] flow = none
stream (node ∷ nodes) flow =
    if matches node.item flow then some (collected node) else stream nodes flow

pub stream-none :
    (nodes : List Blist) (flow : FlowItem) → NoneMatches flow nodes → stream nodes flow ≡ none
unfolding stream
stream-none [] flow miss = refl
stream-none (node ∷ nodes) flow (e, miss) = rw e (stream-none nodes flow miss)

-- The sessions before do not matter when none of them matches.
pub stream-append :
    (before nodes : List Blist) (flow : FlowItem)
    → NoneMatches flow before
    → stream (before ++ nodes) flow ≡ stream nodes flow
unfolding stream
stream-append [] nodes flow miss = refl
stream-append (node ∷ before) nodes flow (e, miss) = rw e (stream-append before nodes flow miss)

pub stream-hit :
    (node : Blist) (after : List Blist) (flow : FlowItem)
    → matches node.item flow ≡ true
    → stream (node ∷ after) flow ≡ some (collected node)
unfolding stream
stream-hit node after flow e = rw e

-- A session of another flow does not matter.
pub stream_other :
    (before : List Blist) (node : Blist) (after : List Blist) (flow : FlowItem)
    → matches node.item flow ≡ false
    → stream (before ++ node ∷ after) flow ≡ stream (before ++ after) flow
unfolding stream
stream_other [] node after flow e = rw e
stream_other (first ∷ before) node after flow e =
    ap (λ r. if matches first.item flow then some (collected first) else r)
      (stream_other before node after flow e)
