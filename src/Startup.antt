-- ===== src/Startup.antt =====
-- simulation.c: the command line and the configuration that `main` starts the program with. What
-- `getopt_long` returns is a list; the arithmetic of `double` is a parameter.
pub mod Options
pub mod Checked
pub mod Groups
pub mod Begin
use freepacket.Base.{
  ℕ, ◌+◌, ◌-◌, ◌*◌, ◌/◌, ◌^◌, List, [], ◌∷◌, ◌==◌, if◌then◌else◌, get_or, int_lt, u32, sub64, chars,
}
use freepacket.Config.{SimConfig}
use freepacket.Config.Chars.{equal, atoi}
use freepacket.Config.Lines.{goes_on, returns_with, exits, overruns_buffer, read_config_file}
use freepacket.Config.Defaults.{init_config_s}

-- The names of `long_options`, in their order.
abbrev pub long_options : List (List ℕ)
long_options =
    chars "generator_nums"
    ∷ chars "parser_nums"
    ∷ chars "pktlen"
    ∷ chars "config"
    ∷ chars "manager_nums"
    ∷ chars "gpool_size"
    ∷ chars "pqueue_length"
    ∷ chars "ppool_size"
    ∷ chars "mqueue_length"
    ∷ chars "mpool_size"
    ∷ chars "mhash_length"
    ∷ chars "mbuffer_size"
    ∷ chars "packet_generator_mode"
    ∷ []

-- One return of `getopt_long`: its value, `option_index` and `optarg`.
pub record Opt : Type 0 where
  pub c : ℕ
  pub option_index : ℕ
  pub optarg : List ℕ

-- `long_options[option_index].name`; `getopt_long` stores no index outside the table.
abbrev pub name_of : Opt → List ℕ
name_of opt = get_or long_options opt.option_index []

-- `case 'o':`
unfoldable pub option_o : List ℕ → List ℕ → SimConfig → SimConfig
option_o name optarg config =
    if equal name (chars "gpool_size")
    then record config { generator_pool_size = atoi optarg }
    else (if equal name (chars "parser_pool_size")
        then record config { parser_pool_size = atoi optarg }
        else (if equal name (chars "manager_pool_size")
            then record config { manager_pool_size = atoi optarg }
            else (if equal name (chars "pktlen")
                then record config { pktlen = atoi optarg }
                else config)))

-- `case 'q':`
unfoldable pub option_q : List ℕ → List ℕ → SimConfig → SimConfig
option_q name optarg config =
    if equal name (chars "pqueue_length")
    then record config { parser_queue_length = atoi optarg }
    else (if equal name (chars "manager_queue_length")
        then record config { manager_queue_length = atoi optarg }
        else config)

-- The `switch` of `parse_args`. The cases `h` and `b` break before their assignment.
unfoldable pub apply_option : Opt → SimConfig → SimConfig
apply_option opt config =
    if opt.c == b'g'
    then record config { generator_nums = atoi opt.optarg }
    else (if opt.c == b'p'
        then record config { parser_nums = atoi opt.optarg }
        else (if opt.c == b'm'
            then record config { manager_nums = atoi opt.optarg }
            else (if opt.c == b'o'
                then option_o (name_of opt) opt.optarg config
                else (if opt.c == b'q'
                    then option_q (name_of opt) opt.optarg config
                    else (if opt.c == b'c'
                        then record config { packet_generator_mode = atoi opt.optarg }
                        else config)))))

-- `parse_args`, on what `getopt_long` returns before -1.
unfoldable pub parse_args : List Opt → SimConfig → SimConfig
parse_args [] config = config
parse_args (opt ∷ opts) config = parse_args opts (apply_option opt config)

-- The loop of `main` that looks for the name of the configuration file in `argv + 1`.
unfoldable pub config_path : List ℕ → List (List ℕ) → List ℕ
config_path config_file [] = config_file
config_path config_file (arg ∷ []) = config_file
config_path config_file (arg ∷ next ∷ args) =
    let named = config_path next args in
    let other = config_path config_file (next ∷ args) in
    if equal arg (chars "--config") then named else other

-- The arithmetic of `double`.
pub record Doubles : Type 1 where
  pub Double : Type 0
  pub of_uint : ℕ → Double
  pub of_int : ℕ → Double
  pub mul : Double → Double → Double
  pub div : Double → Double → Double
  pub to_uint : Double → ℕ

-- How `main` gets to the threads: with its configuration, or not at all.
pub data Startup : Type 0 where
  starts : SimConfig → Startup
  stops : Startup
  overwrites : Startup

module _ (d : Doubles) where
  open d use {Double, of_uint, of_int, mul, div, to_uint}

  -- `calc_period(length, rate, thread_num)`, with `global_config->mhz`
  unfoldable pub calc_period : ℕ → Double → Double → ℕ → ℕ
  calc_period mhz length rate thread_num =
      let l = mul (mul (of_uint 8) (of_uint 1000000000)) length in
      let x = mul (mul rate (of_uint 1024)) (of_uint 1024) in
      to_uint (mul (div (of_uint mhz) (of_uint 1000)) (div (mul (of_uint thread_num) l) x))

  -- `main` from `parse_args` to the test of the numbers of threads.
  unfoldable pub start : List Opt → SimConfig → Startup
  start options config =
      let c = parse_args options config in
      let period = calc_period c.mhz (of_int c.pktlen) (of_uint c.speed) c.generator_nums in
      if int_lt c.parser_nums c.generator_nums then stops else starts (record c { period = period })

  -- `main` up to `init_manager_group`, with `cleared` the structure after `bzero` and `file` the
  -- contents of the configuration file.
  unfoldable pub configure : ℕ → ℕ → List ℕ → List Opt → SimConfig → Startup
  configure junk mhz file options cleared =
      elim (read_config_file junk file (init_config_s mhz cleared)) [
        | goes_on c ↦ start options c
        | returns_with c ↦ start options c
        | exits ↦ stops
        | overruns_buffer ↦ overwrites
      ]
