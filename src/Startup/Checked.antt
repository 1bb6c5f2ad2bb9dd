-- ===== src/Startup/Checked.antt =====
-- What `main` starts the threads with.
use freepacket.Base.{ℕ, ◌≡◌, refl, List, false, int_lt, Bool-cases, inl, inr}
use freepacket.Config.{SimConfig}
use freepacket.Config.Lines.{
  Reading, goes_on, returns_with, exits, overruns_buffer, read_config_file,
}
use freepacket.Config.Defaults.{init_config_s}
use freepacket.Config.Bounds.{IsChecked, Checked, read_config_file-Checked, init_config_s-IsChecked}
use freepacket.Startup.{
  Opt, Doubles, Startup, starts, stops, overwrites, parse_args, start, configure,
}
use freepacket.Startup.Options.{IsOverridden, parse_args-IsOverridden}

-- The structure comes from a checked configuration by options and a period, and there are at
-- least as many parsers as generators, as signed numbers.
pub record IsStarted (c : SimConfig) : Type 0 where
  pub file_config : SimConfig
  pub checked : IsChecked file_config
  pub options_config : SimConfig
  pub overridden : IsOverridden file_config options_config
  pub period : c ≡ record options_config { period = c.period }
  pub enough_parsers : int_lt c.parser_nums c.generator_nums ≡ false

abbrev pub Started : Startup → Type 0
Started (starts c) = IsStarted c
Started stops = Unit
Started overwrites = Unit

module _ (d : Doubles) where
  start-Started : (options : List Opt) (c : SimConfig) → IsChecked c → Started (start d options c)
  unfolding start
  start-Started options c h =
      let c' = parse_args options c in
      elim (Bool-cases (int_lt c'.parser_nums c'.generator_nums)) [
        | inl few ↦ rw few tt
        | inr enough ↦ rw enough (record {
          file_config = c;
          checked = h;
          options_config = c';
          overridden = parse_args-IsOverridden options c;
          period = refl;
          enough_parsers = enough;
        })
      ]

  read-Started :
      (r : Reading) (options : List Opt)
      → Checked r
      → Started (elim r [
        | goes_on c ↦ start d options c
        | returns_with c ↦ start d options c
        | exits ↦ stops
        | overruns_buffer ↦ overwrites
      ])
  read-Started (goes_on c) options h = start-Started options c h
  read-Started (returns_with c) options h = start-Started options c h
  read-Started exits options h = tt
  read-Started overruns_buffer options h = tt

  -- Whatever is in the configuration file and on the command line, when `main` comes to start its
  -- threads there are at least as many parsers as generators, and the configuration is one in
  -- which every cursor is at the start of its range and the packet length is at most 1600, but
  -- for the settings that `parse_args` can change and the period.
  pub configure-Started :
      (junk mhz : ℕ) (file : List ℕ) (options : List Opt) (cleared : SimConfig)
      → Started (configure d junk mhz file options cleared)
  unfolding configure
  configure-Started junk mhz file options cleared =
      read-Started (read_config_file junk file (init_config_s mhz cleared)) options (
        read_config_file-Checked junk file (init_config_s mhz cleared)
          (init_config_s-IsChecked mhz cleared))
