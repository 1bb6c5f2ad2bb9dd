-- ===== src/Display/Rounds.antt =====
-- The rounds of `sys_display`.
use freepacket.Base.{
  ℕ, zero, suc, ◌<◌, ◌≡◌, refl, ap, ◌∙◌, List, [], ◌∷◌, Option, none, some, Bool, true, false,
  replicate, length, arith,
}
use freepacket.Config.{SimConfig}
use freepacket.Config.Lines.{goes_on}
use freepacket.Config.Reload.{read_config_simple-IsReloaded}
use freepacket.Display.{Shown, shows_gen, shows_gpm, display_step, reload, sys_display}

-- A file is read to its end.
reload_goes_on :
    (junk : ℕ) (file : Option (List ℕ)) (config : SimConfig)
    → (config' : SimConfig) × (reload junk file config ≡ goes_on config')
unfolding reload
reload_goes_on junk none config = (config, refl)
reload_goes_on junk (some file) config =
    let (config', run, kept) = read_config_simple-IsReloaded junk file config in (config', run)

-- Whatever is in the configuration file, the loop runs all its rounds.
pub length-sys_display :
    (junk : ℕ) (files : List (Option (List ℕ))) (state : ℕ) (config : SimConfig)
    → length (sys_display junk files state config) ≡ length files
unfolding sys_display
length-sys_display junk [] state config = refl
length-sys_display junk (file ∷ files) state config =
    let (config', run) = reload_goes_on junk file config in
    rw (sys_display, run) (ap suc (length-sys_display junk files _ config'))

-- The display of a setting, and the state in which it is shown.
abbrev pub shown_for : Bool → Shown
shown_for true = shows_gpm
shown_for false = shows_gen

abbrev state_for : Bool → ℕ
state_for true = 2
state_for false = 1

abbrev pub setting : Bool → ℕ
setting true = 1
setting false = 0

-- One round leads to the state of the setting, and from there on it stays.
display_step_settles :
    (on : Bool) (state : ℕ) → state < 3 → (display_step (setting on) state).0 ≡ state_for on
unfolding display_step
display_step_settles true zero h = refl
display_step_settles false zero h = refl
display_step_settles true (suc zero) h = refl
display_step_settles false (suc zero) h = refl
display_step_settles true (suc (suc zero)) h = refl
display_step_settles false (suc (suc zero)) h = refl
display_step_settles on (suc (suc (suc state))) h = absurd (omega arith)

display_step_stays :
    (on : Bool) → display_step (setting on) (state_for on) ≡ (state_for on, shown_for on)
unfolding display_step
display_step_stays true = refl
display_step_stays false = refl

-- A round in which the file has not changed.
after_step : ℕ → List (Option (List ℕ)) → SimConfig → ℕ × Shown → List Shown
after_step junk files config (state, shown) = shown ∷ sys_display junk files state config

sys_display-none :
    (junk : ℕ) (files : List (Option (List ℕ))) (state : ℕ) (config : SimConfig)
    → sys_display junk (none ∷ files) state config
      ≡ after_step junk files config (display_step config.screen_display state)
unfolding sys_display reload after_step
sys_display-none junk files state config = refl

settled :
    (junk n : ℕ) (on : Bool) (config : SimConfig)
    → config.screen_display ≡ setting on
    → sys_display junk (replicate n none) (state_for on) config ≡ replicate n (shown_for on)
unfolding sys_display after_step
settled junk zero on config e = refl
settled junk (suc n) on config e =
    sys_display-none junk (replicate n none) (state_for on) config
    ∙ ap (λ r. after_step junk (replicate n none) config r)
        (ap (λ flag. display_step flag (state_for on)) e ∙ display_step_stays on)
    ∙ ap (λ xs. shown_for on ∷ xs) (settled junk n on config e)

-- While the configuration file does not change, `sys_display` shows the display of the setting in
-- every round but the first, whatever state it is in: the table when `screen_display` is 1, the
-- speed when it is 0.
pub sys_display_settles :
    (junk n : ℕ) (on : Bool) (state : ℕ) (config : SimConfig)
    → config.screen_display ≡ setting on
    → state < 3
    → sys_display junk (none ∷ replicate n none) state config
      ≡ (display_step (setting on) state).1 ∷ replicate n (shown_for on)
unfolding after_step
sys_display_settles junk n on state config e h =
    sys_display-none junk (replicate n none) state config
    ∙ ap (λ r. after_step junk (replicate n none) config r) (ap (λ flag. display_step flag state) e)
    ∙ ap
        (λ next.
          (display_step (setting on) state).1 ∷ sys_display junk (replicate n none) next config)
        (display_step_settles on state h)
    ∙ ap (λ xs. (display_step (setting on) state).1 ∷ xs) (settled junk n on config e)
