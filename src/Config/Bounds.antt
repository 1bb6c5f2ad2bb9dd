-- ===== src/Config/Bounds.antt =====
-- What `read_config_file` makes sure of.
use freepacket.Base.{
  ℕ, ◌≡◌, refl, List, [], ◌∷◌, Option, none, some, Bool, true, false, int_lt, if◌then◌else◌, ◌==◌,
  u32, ◌+◌, Bool-cases, inl, inr,
}
use freepacket.Config.{SimConfig}
use freepacket.Config.Chars.{atoi, contains, starts_with, skip_spaces}
use freepacket.Config.Keys
use freepacket.Config.Defaults.{init_config_s}
use freepacket.Config.Lines.{
  Reading, Scan, goes_on, returns_with, exits, overruns_buffer, range_of, apply, apply_number,
  scan_address, scan_port, read_line, read_lines, read_config_file, fgets_lines, line_size,
  skip_var_name, skip_operator, strupr,
}

-- The four cursors are at the start of their ranges.
abbrev pub AtMinimum : SimConfig → Type 0
AtMinimum c =
    (c.saddr_cur ≡ c.saddr_min)
    × (c.daddr_cur ≡ c.daddr_min)
    × (c.sport_cur ≡ c.sport_min)
    × (c.dport_cur ≡ c.dport_min)

-- And the packet length, as an `int`, is at most 1600.
abbrev pub IsChecked : SimConfig → Type 0
IsChecked c = AtMinimum c × (int_lt 1600 c.pktlen ≡ false)

-- A reading that leaves a configuration leaves such a one.
abbrev pub Checked : Reading → Type 0
Checked (goes_on c) = IsChecked c
Checked (returns_with c) = IsChecked c
Checked exits = Unit
Checked overruns_buffer = Unit

pick : (x y : SimConfig) (b : Bool) → IsChecked x → IsChecked y → IsChecked (if b then x else y)
pick x y true h k = h
pick x y false h k = k

range_of-Checked :
    (scan : Scan) (store : ℕ → ℕ → SimConfig) (c : SimConfig)
    → ((low high : ℕ) → IsChecked (store low high))
    → IsChecked c
    → Checked (range_of scan store c)
unfolding range_of
range_of-Checked scan store c h k = go scan.rev
  where
    go :
        (rev : Option ℕ)
        → Checked (elim rev [
          | none ↦ returns_with c
          | some n ↦
              let counter = if n == 1 then 0 else scan.counter in
              goes_on (store scan.value (u32 (scan.value + counter)))
        ])
    go none = k
    go (some n) = h _ _

apply_number-IsChecked :
    (key : Keys.Key) (p : List ℕ) (c : SimConfig) → IsChecked c → IsChecked (apply_number key p c)
unfolding apply_number
apply_number-IsChecked Keys.generator_nums p c h = h
apply_number-IsChecked other p c h = h

pktlen-Checked :
    (p : List ℕ) (c : SimConfig)
    → IsChecked c
    → Checked (if int_lt 1600 (atoi p) then exits else goes_on (record c { pktlen = atoi p }))
pktlen-Checked p c (h, k) = elim (Bool-cases (int_lt 1600 (atoi p))) [
  | inl long ↦ rw long tt
  | inr short ↦ rw short (h, short)
]

apply-Checked :
    (junk : ℕ) (key : Keys.Key) (p : List ℕ) (c : SimConfig)
    → IsChecked c
    → Checked (apply junk key p c)
unfolding apply
apply-Checked junk Keys.proto p c h =
    pick (record c { protocol = 6 }) _ (contains (116 ∷ 99 ∷ 112 ∷ []) p) h
      (pick (record c { protocol = 17 }) c (contains (117 ∷ 100 ∷ 112 ∷ []) p) h h)
apply-Checked junk Keys.srcmac p c h = h
apply-Checked junk Keys.dstmac p c h = h
apply-Checked junk Keys.srcip p c h =
    range_of-Checked (scan_address junk 0 0 4 p) _ c
      (λ low high. ((refl, h.0.1, h.0.2, h.0.3), h.1)) h
apply-Checked junk Keys.dstip p c h =
    range_of-Checked (scan_address junk 0 0 4 p) _ c
      (λ low high. ((h.0.0, refl, h.0.2, h.0.3), h.1)) h
apply-Checked junk Keys.srcport p c h =
    range_of-Checked (scan_port junk p) _ c (λ low high. ((h.0.0, h.0.1, refl, h.0.3), h.1)) h
apply-Checked junk Keys.dstport p c h =
    range_of-Checked (scan_port junk p) _ c (λ low high. ((h.0.0, h.0.1, h.0.2, refl), h.1)) h
apply-Checked junk Keys.pktlen p c h = pktlen-Checked p c h
apply-Checked junk Keys.pktdata p c h = h
apply-Checked junk Keys.speed p c h = h
apply-Checked junk Keys.link_name [] c h = tt
apply-Checked junk Keys.link_name (d ∷ ds) c h = h
apply-Checked junk other p c h = apply_number-IsChecked other p c h

line-Checked :
    (b : Bool) (junk : ℕ) (key : Option Keys.Key) (p : List ℕ) (c : SimConfig)
    → IsChecked c
    → Checked (elim b [
      | true ↦ goes_on c
      | false ↦ elim key [ none ↦ goes_on c | some k ↦ apply junk k p c ]
    ])
line-Checked true junk key p c h = h
line-Checked false junk none p c h = h
line-Checked false junk (some key) p c h = apply-Checked junk key p c h

read_line-Checked :
    (names : List (List ℕ × Keys.Key)) (junk : ℕ) (line : List ℕ) (c : SimConfig)
    → IsChecked c
    → Checked (read_line names junk line c)
unfolding read_line
read_line-Checked names junk [] c h = h
read_line-Checked names junk (b ∷ buf) c h =
    let p = skip_spaces (b ∷ buf) in
    let (name, rest) = skip_var_name p in
    line-Checked (starts_with (35 ∷ []) p) junk (Keys.key_of names (strupr name))
      (skip_operator rest) c h

-- The lines after one.
continue-Checked :
    (r : Reading) (rest : SimConfig → Reading)
    → Checked r
    → ((c : SimConfig) → IsChecked c → Checked (rest c))
    → Checked (elim r [
      | goes_on c ↦ rest c
      | returns_with c ↦ returns_with c
      | exits ↦ exits
      | overruns_buffer ↦ overruns_buffer
    ])
continue-Checked (goes_on c) rest h k = k c h
continue-Checked (returns_with c) rest h k = h
continue-Checked exits rest h k = tt
continue-Checked overruns_buffer rest h k = tt

read_lines-Checked :
    (names : List (List ℕ × Keys.Key)) (junk : ℕ) (lines : List (List ℕ)) (c : SimConfig)
    → IsChecked c
    → Checked (read_lines names junk lines c)
unfolding read_lines
read_lines-Checked names junk [] c h = h
read_lines-Checked names junk (line ∷ lines) c h =
    continue-Checked (read_line names junk line c) (λ c'. read_lines names junk lines c')
      (read_line-Checked names junk line c h) (λ c' k. read_lines-Checked names junk lines c' k)

pub read_config_file-Checked :
    (junk : ℕ) (file : List ℕ) (c : SimConfig)
    → IsChecked c
    → Checked (read_config_file junk file c)
unfolding read_config_file
read_config_file-Checked junk file c h =
    read_lines-Checked Keys.names junk (fgets_lines line_size [] file) c h

pub init_config_s-IsChecked : (mhz : ℕ) (c : SimConfig) → IsChecked (init_config_s mhz c)
unfolding init_config_s
init_config_s-IsChecked mhz c = ((refl, refl, refl, refl), refl)
