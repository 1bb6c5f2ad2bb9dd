-- ===== src/Config/Reload.antt =====
-- `read_config_simple` of config.c, which runs while the program does.
use freepacket.Base.{
  ℕ, ◌≡◌, refl, ap, ◌∙◌, List, [], ◌∷◌, Option, none, some, Bool, true, false, if◌then◌else◌, Never,
  All,
}
use freepacket.Config.{SimConfig}
use freepacket.Config.Chars.{equal, starts_with, skip_spaces}
use freepacket.Config.Keys
use freepacket.Config.Lines.{
  Reading, goes_on, returns_with, exits, overruns_buffer, apply, apply_number, read_line,
  read_lines, read_config_simple, fgets_lines, line_size, skip_var_name, skip_operator, strupr,
}

-- `c'` is `c` but for the four settings that may change while the program runs.
pub record IsReloaded (c c' : SimConfig) : Type 0 where
  pub rest : c' ≡ record c {
    pipe_depth = c'.pipe_depth;
    screen_display = c'.screen_display;
    speed_mode = c'.speed_mode;
    destory_time = c'.destory_time;
  }

-- The reading goes on to the end, with such a configuration.
abbrev pub GoesOn : SimConfig → Reading → Type 0
GoesOn c (goes_on c') = IsReloaded c c'
GoesOn c (returns_with c') = Never
GoesOn c exits = Never
GoesOn c overruns_buffer = Never

abbrev IsSimple : Option Keys.Key → Type 0
IsSimple none = Unit
IsSimple (some Keys.pipe_depth) = Unit
IsSimple (some Keys.screen_display) = Unit
IsSimple (some Keys.speed_mode) = Unit
IsSimple (some Keys.destory_time) = Unit
IsSimple (some other) = Never

-- A choice between a simple name and what is found later.
pick-IsSimple :
    (b : Bool) (key : Keys.Key) (later : Option Keys.Key)
    → IsSimple (some key)
    → IsSimple later
    → IsSimple (if b then some key else later)
pick-IsSimple true key later h k = h
pick-IsSimple false key later h k = k

key_of-IsSimple :
    (names : List (List ℕ × Keys.Key)) (name : List ℕ)
    → All (λ entry. IsSimple (some entry.1)) names
    → IsSimple (Keys.key_of names name)
unfolding Keys.key_of
key_of-IsSimple [] name h = tt
key_of-IsSimple ((first, key) ∷ names) name (h, hs) =
    pick-IsSimple (equal name first) key (Keys.key_of names name) h (key_of-IsSimple names name hs)

-- One line, once its name has been looked up.
line-GoesOn :
    (junk : ℕ) (key : Option Keys.Key) (p : List ℕ) (c : SimConfig)
    → IsSimple key
    → GoesOn c (elim key [ none ↦ goes_on c | some k ↦ apply junk k p c ])
unfolding apply apply_number
line-GoesOn junk none p c h = record { rest = refl }
line-GoesOn junk (some Keys.pipe_depth) p c h = record { rest = refl }
line-GoesOn junk (some Keys.screen_display) p c h = record { rest = refl }
line-GoesOn junk (some Keys.speed_mode) p c h = record { rest = refl }
line-GoesOn junk (some Keys.destory_time) p c h = record { rest = refl }
line-GoesOn junk (some other) p c h = elim h [ ]

comment-GoesOn :
    (b : Bool) (c : SimConfig) (r : Reading)
    → GoesOn c r
    → GoesOn c (elim b [ true ↦ goes_on c | false ↦ r ])
comment-GoesOn true c r h = record { rest = refl }
comment-GoesOn false c r h = h

read_line-GoesOn :
    (junk : ℕ) (line : List ℕ) (c : SimConfig) → GoesOn c (read_line Keys.simple_names junk line c)
unfolding read_line
read_line-GoesOn junk [] c = record { rest = refl }
read_line-GoesOn junk (b ∷ buf) c =
    let p = skip_spaces (b ∷ buf) in
    let (name, rest) = skip_var_name p in
    comment-GoesOn (starts_with (35 ∷ []) p) c _ (
      line-GoesOn junk (Keys.key_of Keys.simple_names (strupr name)) (skip_operator rest) c
        (key_of-IsSimple Keys.simple_names (strupr name) (tt, (tt, (tt, (tt, tt))))))

IsReloaded-trans : (a b c : SimConfig) → IsReloaded a b → IsReloaded b c → IsReloaded a c
IsReloaded-trans a b c h k = record {
  rest =
      k.rest
      ∙ ap
          (λ (r : SimConfig). record r {
            pipe_depth = c.pipe_depth;
            screen_display = c.screen_display;
            speed_mode = c.speed_mode;
            destory_time = c.destory_time;
          })
          h.rest;
}

-- What one line leaves, when it goes on.
next_line :
    (c : SimConfig) (r : Reading)
    → GoesOn c r
    → (c' : SimConfig) × (r ≡ goes_on c') × IsReloaded c c'
next_line c (goes_on c') h = (c', refl, h)
next_line c (returns_with c') h = elim h [ ]
next_line c exits h = elim h [ ]
next_line c overruns_buffer h = elim h [ ]

read_lines-IsReloaded :
    (junk : ℕ) (lines : List (List ℕ)) (c : SimConfig)
    → (c' : SimConfig) × (read_lines Keys.simple_names junk lines c ≡ goes_on c') × IsReloaded c c'
unfolding read_lines
read_lines-IsReloaded junk [] c = (c, refl, record { rest = refl })
read_lines-IsReloaded junk (line ∷ lines) c =
    let (c₁, run₁, h) =
      next_line c (read_line Keys.simple_names junk line c) (read_line-GoesOn junk line c) in
    let (c', run, k) = read_lines-IsReloaded junk lines c₁ in
    (c', rw (read_lines, run₁, run), IsReloaded-trans c c₁ c' h k)

-- Whatever is in the file, `read_config_simple` reads it to the end, never exits or writes outside
-- a buffer, and changes no setting but the depth of the pipeline, the display, the speed mode and
-- the life of a session.
pub read_config_simple-IsReloaded :
    (junk : ℕ) (file : List ℕ) (c : SimConfig)
    → (c' : SimConfig) × (read_config_simple junk file c ≡ goes_on c') × IsReloaded c c'
unfolding read_config_simple
read_config_simple-IsReloaded junk file c =
    read_lines-IsReloaded junk (fgets_lines line_size [] file) c
