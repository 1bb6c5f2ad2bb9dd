-- ===== src/Config/Lines.antt =====
-- `read_config_file` and `read_config_simple` of config.c, on the characters of the file.
use freepacket.Base.{
  ℕ, zero, suc, ◌+◌, ◌-◌, ◌*◌, List, [], ◌∷◌, ◌++◌, Option, none, some, true, false, ◌||◌, ◌==◌,
  leb, if◌then◌else◌, u32, int_lt, map, bit_or, ◌<<<◌, length, take,
}
use freepacket.Config.{SimConfig}
use freepacket.Config.Chars.{
  is_space, to_upper, contains, starts_with, skip_spaces, atoi, scan_unsigned, literal,
}
use freepacket.Config.Mac.{ether_atoe}
use freepacket.Config.Keys

-- `skip_var_name(p)`: the name, and what follows it.
unfoldable pub skip_var_name : List ℕ → List ℕ × List ℕ
skip_var_name [] = ([], [])
skip_var_name (c ∷ cs) =
    let (name, rest) = skip_var_name cs in
    if is_space c || c == 61 then ([], c ∷ cs) else (c ∷ name, rest)

-- `skip_opeartor(p)`
unfoldable pub skip_operator : List ℕ → List ℕ
skip_operator [] = []
skip_operator (c ∷ cs) =
    let rest = skip_operator cs in if is_space c || c == 61 then rest else c ∷ cs

-- `strupr(p)`
unfoldable pub strupr : List ℕ → List ℕ
strupr = map (λ c. to_upper c)

-- How the work on one line ends: the loop goes on, the function returns, the program exits, or it
-- writes outside a buffer.
pub data Reading : Type 0 where
  goes_on : SimConfig → Reading
  returns_with : SimConfig → Reading
  exits : Reading
  overruns_buffer : Reading

-- What `sscanf(p, "%u+%u", &port, &counter)` leaves: the number of conversions, -1 at the end of
-- the text being `none`, and the two variables. `junk` is what is in a variable that nothing set.
pub record Scan : Type 0 where
  pub rev : Option ℕ
  pub value : ℕ
  pub counter : ℕ

-- The `+%u` at the end of both formats, after `n` conversions.
unfoldable pub scan_counter : ℕ → ℕ → ℕ → List ℕ → Scan
scan_counter junk n value rest = elim (literal 43 rest) [
  | none ↦ record { rev = some n; value = value; counter = junk }
  | some text ↦ elim (scan_unsigned text) [
    | none ↦ record { rev = some n; value = value; counter = junk }
    | some (counter, text') ↦ record { rev = some (n + 1); value = value; counter = counter }
  ]
]

unfoldable pub at_end : List ℕ → Option ℕ
at_end [] = none
at_end (c ∷ cs) = some 0

unfoldable pub scan_port : ℕ → List ℕ → Scan
scan_port junk text = elim (scan_unsigned text) [
  | none ↦ record { rev = at_end (skip_spaces text); value = junk; counter = junk }
  | some (port, rest) ↦ scan_counter junk 1 port rest
]

-- `sscanf(p, "%u.%u.%u.%u+%u", …)` and `ipaddr[0] << 24 | … | ipaddr[3]`, with `n` numbers read
-- into `value` and `left` to come.
unfoldable pub scan_address : ℕ → ℕ → ℕ → ℕ → List ℕ → Scan
scan_address junk n value zero text = scan_counter junk n value text
scan_address junk n value (suc left) text = elim (scan_unsigned text) [
  | none ↦ record {
    rev = if n == 0 then at_end (skip_spaces text) else some n;
    value = value;
    counter = junk;
  }
  | some (part, rest) ↦
      let value' = bit_or value (u32 (part <<< (8 * left))) in
      elim left [
        | zero ↦ scan_counter junk (n + 1) value' rest
        | suc more ↦ elim (literal 46 rest) [
          | none ↦ record { rev = some (n + 1); value = value'; counter = junk }
          | some text' ↦ scan_address junk (n + 1) value' left text'
        ]
      ]
]

-- The three ways on from `sscanf`: `counter` set to 0, a return, or what was read.
unfoldable pub range_of : Scan → (ℕ → ℕ → SimConfig) → SimConfig → Reading
range_of scan store c = elim (scan.rev) [
  | none ↦ returns_with c
  | some rev ↦
      let counter = if rev == 1 then 0 else scan.counter in
      goes_on (store scan.value (u32 (scan.value + counter)))
]

-- The settings that are numbers read by `atoi`.
unfoldable pub apply_number : Keys.Key → List ℕ → SimConfig → SimConfig
apply_number Keys.generator_nums p c = record c { generator_nums = atoi p }
apply_number Keys.parser_nums p c = record c { parser_nums = atoi p }
apply_number Keys.manager_nums p c = record c { manager_nums = atoi p }
apply_number Keys.generator_pool_size p c = record c { generator_pool_size = atoi p }
apply_number Keys.parser_queue_length p c = record c { parser_queue_length = atoi p }
apply_number Keys.parser_pool_size p c = record c { parser_pool_size = atoi p }
apply_number Keys.manager_pool_size p c = record c { manager_pool_size = atoi p }
apply_number Keys.manager_queue_length p c = record c { manager_queue_length = atoi p }
apply_number Keys.manager_hash_length p c = record c { manager_hash_length = atoi p }
apply_number Keys.manager_buffer_size p c = record c { manager_buffer_size = atoi p }
apply_number Keys.packet_generator_mode p c = record c { packet_generator_mode = atoi p }
apply_number Keys.pipe_depth p c = record c { pipe_depth = atoi p }
apply_number Keys.screen_display p c = record c { screen_display = atoi p }
apply_number Keys.speed_mode p c = record c { speed_mode = atoi p }
apply_number Keys.destory_time p c = record c { destory_time = atoi p }
apply_number other p c = c

-- The branches of `read_config_file` after `strcmp`, with `p` the rest of the line.
unfoldable pub apply : ℕ → Keys.Key → List ℕ → SimConfig → Reading
apply junk Keys.proto p c = goes_on (
    if contains (116 ∷ 99 ∷ 112 ∷ []) p
    then record c { protocol = 6 }
    else (if contains (117 ∷ 100 ∷ 112 ∷ []) p then record c { protocol = 17 } else c))
apply junk Keys.srcmac p c = goes_on (record c { srcmac = ether_atoe p })
apply junk Keys.dstmac p c = goes_on (record c { dstmac = ether_atoe p })
apply junk Keys.srcip p c =
    range_of (scan_address junk 0 0 4 p)
      (λ low high. record c { saddr_min = low; saddr_cur = low; saddr_max = high }) c
apply junk Keys.dstip p c =
    range_of (scan_address junk 0 0 4 p)
      (λ low high. record c { daddr_min = low; daddr_cur = low; daddr_max = high }) c
apply junk Keys.srcport p c =
    range_of (scan_port junk p)
      (λ low high. record c { sport_min = low; sport_cur = low; sport_max = high }) c
apply junk Keys.dstport p c =
    range_of (scan_port junk p)
      (λ low high. record c { dport_min = low; dport_cur = low; dport_max = high }) c
apply junk Keys.pktlen p c =
    if int_lt 1600 (atoi p) then exits else goes_on (record c { pktlen = atoi p })
apply junk Keys.pktdata p c = goes_on (record c { pkt_data = some p })
apply junk Keys.speed p c = goes_on (record c { speed = atoi p })
apply junk Keys.link_name [] c = overruns_buffer
apply junk Keys.link_name (d ∷ ds) c =
    goes_on (record c { link_name = some (take (length ds) (d ∷ ds)) })
apply junk other p c = goes_on (apply_number other p c)

-- One turn of the loop: a line with its name, in capitals, looked up among `names`.
unfoldable pub read_line : List (List ℕ × Keys.Key) → ℕ → List ℕ → SimConfig → Reading
read_line names junk [] c = goes_on c
read_line names junk (b ∷ buf) c =
    let p = skip_spaces (b ∷ buf) in
    let (name, rest) = skip_var_name p in
    elim (starts_with (35 ∷ []) p) [
      | true ↦ goes_on c
      | false ↦ elim (Keys.key_of names (strupr name)) [
        | none ↦ goes_on c
        | some key ↦ apply junk key (skip_operator rest) c
      ]
    ]

-- `BUFSIZ - 1`, the characters that one `fgets` reads at most.
abbrev pub line_size : ℕ
line_size = 8191

-- What the calls of `fgets` return, with `room` characters left for the line that starts with
-- `line`. The loop ends at the end of the file before it looks at a last line without a newline.
unfoldable pub fgets_lines : ℕ → List ℕ → List ℕ → List (List ℕ)
fgets_lines room line [] = []
fgets_lines room line (c ∷ cs) =
    let whole = line ++ c ∷ [] in
    let ends = c == 10 || leb room 1 in
    let rest = fgets_lines (if ends then line_size else room - 1) (if ends then [] else whole) cs in
    if ends then whole ∷ rest else rest

unfoldable pub read_lines : List (List ℕ × Keys.Key) → ℕ → List (List ℕ) → SimConfig → Reading
read_lines names junk [] c = goes_on c
read_lines names junk (line ∷ lines) c = elim (read_line names junk line c) [
  | goes_on c' ↦ read_lines names junk lines c'
  | returns_with c' ↦ returns_with c'
  | exits ↦ exits
  | overruns_buffer ↦ overruns_buffer
]

-- `read_config_file`, on a file that can be opened, and `read_config_simple`, on one that has
-- changed.
unfoldable pub read_config_file : ℕ → List ℕ → SimConfig → Reading
read_config_file junk file c = read_lines Keys.names junk (fgets_lines line_size [] file) c

unfoldable pub read_config_simple : ℕ → List ℕ → SimConfig → Reading
read_config_simple junk file c = read_lines Keys.simple_names junk (fgets_lines line_size [] file) c
