-- ===== src/Pipeline/Fits.antt =====
-- Packets whose headers have no options and whose payload fits the buffer of a session, and the flows
-- that a parser makes of them.
use freepacket.Base.{
  ℕ, ◌+◌, ◌*◌, ◌-◌, ◌/◌, ◌%◌, ◌^◌, ◌≤◌, ◌<◌, ◌≡◌, ap, ◌∙◌, List, [], ◌∷◌, All, length, length-take,
  length-drop, drop, arith,
}
use mathlib.Core.List.{Perm, Permᴰ}
use mathlib.Core.Path.{subst}
use mathlib.Core.Logic.{∥∥₁_elim}
use native.Mathlib.Bridge.{le_prop}
use freepacket.Memory.{load8}
use freepacket.Parser.{Packet, FlowItem, make_flow_item_tcp, ip_hdr, ihl_bytes}
use freepacket.Parser.Loop.{make_flows}
use freepacket.Session.{payload_of}
use freepacket.Pipeline.Circle.{Tag, tag, tags}

-- 54 bytes of headers, a buffer for the packet, and a payload of at most `limit` bytes.
pub record IsPlain (limit : ℕ) (t : Tag) : Type 0 where
  pub ihl : t.ihl % 16 ≡ 5
  pub doff : t.doff / 16 ≡ 5
  pub least : 54 ≤ t.length
  pub most : t.length < 2 ^ 32
  pub room : t.length + 2 ≤ t.size
  pub fits : t.length - 54 ≤ limit

-- The payload of the flow lies in its packet, which is plain, and fits.
pub record IsFitting (limit : ℕ) (flow : FlowItem) : Type 0 where
  pub plain : IsPlain limit (tag flow.packet)
  pub inside : length (payload_of flow) ≡ flow.payload_len
  pub fits : flow.payload_len ≤ limit

pub IsPlain-prop : (limit : ℕ) (t : Tag) → IsProp (IsPlain limit t)
IsPlain-prop limit t = hlevel (le_prop)

pub IsFitting-prop : (limit : ℕ) (flow : FlowItem) → IsProp (IsFitting limit flow)
IsFitting-prop limit flow = hlevel (IsPlain-prop, le_prop)

All-prop :
    {A : Type 0} (P : A → Type 0) → ((a : A) → IsProp (P a)) → (xs : List A) → IsProp (All P xs)
All-prop P prop [] = hlevel
All-prop P prop (x ∷ xs) = hlevel (prop x, All-prop P prop xs)

All-Permᴰ : {A : Type 0} (P : A → Type 0) {xs ys : List A} → Permᴰ xs ys → All P xs → All P ys
All-Permᴰ P Permᴰ.nil all = tt
All-Permᴰ P (Permᴰ.cons same d) (first, all) = (subst P same first, All-Permᴰ P d all)
All-Permᴰ P (Permᴰ.swap e₁ e₂) (a, (b, all)) = (subst P e₂ b, (subst P e₁ a, all))
All-Permᴰ P (Permᴰ.trans d₁ d₂) all = All-Permᴰ P d₂ (All-Permᴰ P d₁ all)

-- What holds of every member holds in any order.
pub All-Perm :
    {A : Type 0} (P : A → Type 0)
    → ((a : A) → IsProp (P a))
    → {xs ys : List A} → Perm xs ys
    → All P xs
    → All P ys
All-Perm P prop {xs} {ys} same all = ∥∥₁_elim same (All-prop P prop ys) (λ d. All-Permᴰ P d all)

make_flow_item_tcp-IsFitting :
    (limit : ℕ) (item : FlowItem) (p : Packet)
    → IsPlain limit (tag p)
    → IsFitting limit (make_flow_item_tcp item p)
unfolding make_flow_item_tcp
make_flow_item_tcp-IsFitting limit item p h =
    let ihl : ihl_bytes p.bytes ≡ 20 = ap (λ k. k * 4) h.ihl in
    let doff : load8 p.bytes (ip_hdr + ihl_bytes p.bytes + 12) / 16 ≡ 5 =
      ap (λ k. load8 p.bytes (ip_hdr + k + 12) / 16) ihl ∙ h.doff in
    let flow = make_flow_item_tcp item p in
    let len : flow.payload_len ≡ p.length - 54 = omega (arith, ihl, doff, h.least, h.most) in
    record {
      plain = h;
      inside = omega (
        arith,
        length-take flow.payload_len (drop flow.payload p.bytes),
        length-drop flow.payload p.bytes,
        len,
        ihl,
        doff,
        h.least,
        h.room,
      );
      fits = omega (arith, len, h.fits);
    }

-- The flows of plain packets fit.
pub make_flows-IsFitting :
    (limit : ℕ) (items : List FlowItem) (ps : List Packet)
    → All (IsPlain limit) (tags ps)
    → All (IsFitting limit) (make_flows items ps)
unfolding make_flows
make_flows-IsFitting limit [] ps all = tt
make_flows-IsFitting limit (item ∷ items) [] all = tt
make_flows-IsFitting limit (item ∷ items) (p ∷ ps) (plain, all) =
    (make_flow_item_tcp-IsFitting limit item p plain, make_flows-IsFitting limit items ps all)
