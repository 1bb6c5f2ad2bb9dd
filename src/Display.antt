-- ===== src/Display.antt =====
-- display.c: which of the two displays a round of `sys_display` shows, and the numbers in them.
-- The layout of the lines is not modelled.
pub mod Rounds
use freepacket.Base.{
  ℕ, zero, suc, ◌+◌, ◌-◌, ◌*◌, ◌/◌, ◌%◌, ◌^◌, List, [], ◌∷◌, ◌++◌, Option, none, some, Bool, true,
  false, ◌&&◌, ◌||◌, not, ◌==◌, if◌then◌else◌, u64, sub64, length, replicate, set, ltb, int_lt, max,
  Outcome, returns, spins, overruns,
}
use freepacket.Config.{SimConfig}
use freepacket.Config.Lines.{
  Reading, goes_on, returns_with, exits, overruns_buffer, read_config_simple,
}
use freepacket.Parser.{Packet, FlowItem}
use freepacket.Queue.{Queue}
use freepacket.Session.{Blist, HashTable, hash_count}

-- What the displays read of a `generator_t`, a `parser_t` and a `manager_t`.
pub record GeneratorStat : Type 0 where
  pub total_send_byte : ℕ
  pub drop_pempty_total : ℕ
  pub drop_qfull_total : ℕ
  pub alive : ℕ
  pub pool : Queue Packet

pub record ParserStat : Type 0 where
  pub alive : ℕ
  pub queue : Queue Packet
  pub pool : Queue FlowItem

pub record ManagerStat : Type 0 where
  pub alive : ℕ
  pub queue : Queue FlowItem
  pub session_pool : Queue Blist
  pub ht : HashTable

-- The objects in a queue: `q->enqueue_count - q->dequeue_count`.
abbrev pub in_queue {ℓ} : {A : Type ℓ} → Queue A → ℕ
in_queue q = sub64 q.enqueue_count q.dequeue_count

-- The static variables `new` and `old` of a display.
pub record Totals : Type 0 where
  pub new : ℕ
  pub old : ℕ

-- The loop of `display_gen`: `new` and `drop_flag`.
unfoldable pub gen_loop : ℕ → Bool → List GeneratorStat → ℕ × Bool
gen_loop new drop_flag [] = (new, drop_flag)
gen_loop new drop_flag (g ∷ gs) =
    gen_loop (u64 (new + g.total_send_byte))
      (if not (g.drop_pempty_total == 0) || not (g.drop_qfull_total == 0) then true else drop_flag)
      gs

-- What `display_gen` shows.
pub record Speed : Type 0 where
  pub megabits : ℕ
  pub dropped : Bool

unfoldable pub display_gen : List GeneratorStat → Totals → Speed × Totals
display_gen group totals =
    let (new, drop_flag) = gen_loop totals.new false group in
    (
      record { megabits = sub64 new totals.old / (1024 * 128); dropped = drop_flag },
      record { new = 0; old = new },
    )

-- One line of `display_gpm`: the generator, the parser and the manager with its number, if any.
pub record Line : Type 0 where
  pub generator : Option (ℕ × ℕ × ℕ)
  pub parser : Option (ℕ × ℕ × ℕ)
  pub manager : Option (ℕ × ℕ × ℕ × ℕ)

unfoldable pub generator_cell : List GeneratorStat → Option (ℕ × ℕ × ℕ)
generator_cell [] = none
generator_cell (g ∷ gs) = some (g.alive, in_queue g.pool, g.total_send_byte)

unfoldable pub parser_cell : List ParserStat → Option (ℕ × ℕ × ℕ)
parser_cell [] = none
parser_cell (p ∷ ps) = some (p.alive, in_queue p.queue, in_queue p.pool)

unfoldable pub manager_cell : List ManagerStat → Option (ℕ × ℕ × ℕ × ℕ)
manager_cell [] = none
manager_cell (m ∷ ms) = some (m.alive, in_queue m.queue, in_queue m.session_pool, hash_count m.ht)

abbrev pub rest {ℓ} : {A : Type ℓ} → List A → List A
rest [] = []
rest (x ∷ xs) = xs

-- The `for` over the lines, with `n` of `maximum` lines left.
unfoldable pub gpm_lines : ℕ → List GeneratorStat → List ParserStat → List ManagerStat → List Line
gpm_lines zero gs ps ms = []
gpm_lines (suc n) gs ps ms =
    record { generator = generator_cell gs; parser = parser_cell ps; manager = manager_cell ms }
    ∷ gpm_lines n (rest gs) (rest ps) (rest ms)

-- What `display_gpm` shows.
pub record Table : Type 0 where
  pub lines : List Line
  pub added : ℕ
  pub megabits : ℕ

-- The size of `send_bytes`
abbrev pub send_bytes_size : ℕ
send_bytes_size = 36

-- The first `for` of `display_gpm`.
unfoldable pub sum_bytes : ℕ → List GeneratorStat → ℕ
sum_bytes new [] = new
sum_bytes new (g ∷ gs) = sum_bytes (u64 (new + g.total_send_byte)) gs

-- `display_gpm`, which writes past `send_bytes` when there are more than 36 generators.
unfoldable pub display_gpm :
    List GeneratorStat → List ParserStat → List ManagerStat → ℕ → Totals → Outcome (Table × Totals)
display_gpm gs ps ms maximum totals =
    let new = sum_bytes totals.new gs in
    if ltb send_bytes_size (length gs)
    then overruns
    else returns (
      record {
        lines = gpm_lines maximum gs ps ms;
        added = sub64 new totals.old;
        megabits = u64 (sub64 new totals.old / (1024 * 1024) * 8);
      },
      record { new = 0; old = new },
    )

-- What a round of `sys_display` does besides the change of its state.
pub data Shown : Type 0 where
  nothing newline shows_gen shows_gpm : Shown

-- The `switch` of `sys_display`, with `screen_display` as it is in this round.
unfoldable pub display_step : ℕ → ℕ → ℕ × Shown
display_step screen_display state =
    if state == 0
    then (if screen_display == 1
        then (2, nothing)
        else (if screen_display == 0 then (1, nothing) else (0, nothing)))
    else (if state == 1
        then (if screen_display == 1 then (2, newline) else (1, shows_gen))
        else (if state == 2
            then (if screen_display == 0 then (1, nothing) else (2, shows_gpm))
            else (state, nothing)))

-- `read_config_simple(CONFIG_FILE, global_config)` at the end of a round: the contents of a file
-- that has changed since the last time.
unfoldable pub reload : ℕ → Option (List ℕ) → SimConfig → Reading
reload junk none config = goes_on config
reload junk (some file) config = read_config_simple junk file config

-- The loop of `sys_display` over the rounds left, with what the file was in each round. The
-- program ends after it, or when the reading ends it.
unfoldable pub sys_display : ℕ → List (Option (List ℕ)) → ℕ → SimConfig → List Shown
sys_display junk [] state config = []
sys_display junk (file ∷ files) state config =
    let (state', shown) = display_step config.screen_display state in
    elim (reload junk file config) [
      | goes_on config' ↦ shown ∷ sys_display junk files state' config'
      | returns_with config' ↦ shown ∷ sys_display junk files state' config'
      | exits ↦ shown ∷ []
      | overruns_buffer ↦ shown ∷ []
    ]

-- `maximum`: the larger of the three numbers, as they are compared.
unfoldable pub line_count : ℕ → ℕ → ℕ → ℕ
line_count generators parsers managers =
    let m₁ = if ltb generators parsers then parsers else generators in
    if ltb m₁ managers then managers else m₁
