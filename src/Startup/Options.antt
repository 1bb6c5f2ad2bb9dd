-- ===== src/Startup/Options.antt =====
-- What the command line can change.
use freepacket.Base.{
  chars, ℕ, zero, suc, ◌≡◌, refl, ap, ◌∙◌, List, [], ◌∷◌, Bool, true, false, not, ◌==◌,
  if◌then◌else◌, get_or, Bool-cases, inl, inr,
}
use freepacket.Config.{SimConfig}
use freepacket.Config.Chars.{equal}
use freepacket.Startup.{Opt, long_options, option_o, option_q, apply_option, parse_args}

-- `c'` is `c` but for the settings that an option reaches.
pub record IsOverridden (c c' : SimConfig) : Type 0 where
  pub rest : c' ≡ record c {
    generator_nums = c'.generator_nums;
    parser_nums = c'.parser_nums;
    manager_nums = c'.manager_nums;
    generator_pool_size = c'.generator_pool_size;
    pktlen = c'.pktlen;
    parser_queue_length = c'.parser_queue_length;
    packet_generator_mode = c'.packet_generator_mode;
  }

IsOverridden-trans : (a b c : SimConfig) → IsOverridden a b → IsOverridden b c → IsOverridden a c
IsOverridden-trans a b c h k = record {
  rest =
      k.rest
      ∙ ap
          (λ (r : SimConfig). record r {
            generator_nums = c.generator_nums;
            parser_nums = c.parser_nums;
            manager_nums = c.manager_nums;
            generator_pool_size = c.generator_pool_size;
            pktlen = c.pktlen;
            parser_queue_length = c.parser_queue_length;
            packet_generator_mode = c.packet_generator_mode;
          })
          h.rest;
}

-- A choice between two such configurations.
either :
    (c x y : SimConfig) (b : Bool)
    → IsOverridden c x
    → IsOverridden c y
    → IsOverridden c (if b then x else y)
either c x y true h k = h
either c x y false h k = k

-- No name in the table is this one.
differs : List ℕ → List (List ℕ) → Bool
differs name [] = not (equal [] name)
differs name (option ∷ options) = if equal option name then false else differs name options

unnamed :
    (name : List ℕ) (options : List (List ℕ)) (i : ℕ)
    → differs name options ≡ true
    → equal (get_or options i []) name ≡ false
unfolding differs
unnamed name [] i h = elim (Bool-cases (equal [] name)) [
  | inl e ↦ absurd (cc (rw e at h))
  | inr e ↦ e
]
unnamed name (option ∷ options) zero h = elim (Bool-cases (equal option name)) [
  | inl e ↦ absurd (cc (rw e at h))
  | inr e ↦ e
]
unnamed name (option ∷ options) (suc i) h = elim (Bool-cases (equal option name)) [
  | inl e ↦ absurd (cc (rw e at h))
  | inr e ↦ unnamed name options i (rw e at h)
]

option_o-IsOverridden :
    (i : ℕ) (optarg : List ℕ) (c : SimConfig)
    → IsOverridden c (option_o (get_or long_options i []) optarg c)
unfolding option_o equal differs
option_o-IsOverridden i optarg c =
    let name = get_or long_options i [] in
    let parser_pool = unnamed (chars "parser_pool_size") long_options i refl in
    let manager_pool = unnamed (chars "manager_pool_size") long_options i refl in
    rw (parser_pool, manager_pool)
      (either c _ _ (equal name (chars "gpool_size")) (record { rest = refl })
        (either c _ _ (equal name (chars "pktlen")) (record { rest = refl })
          (record { rest = refl })))

option_q-IsOverridden :
    (i : ℕ) (optarg : List ℕ) (c : SimConfig)
    → IsOverridden c (option_q (get_or long_options i []) optarg c)
unfolding option_q equal differs
option_q-IsOverridden i optarg c =
    let manager_queue = unnamed (chars "manager_queue_length") long_options i refl in
    rw manager_queue (
      either c _ _ (equal (get_or long_options i []) (chars "pqueue_length"))
        (record { rest = refl }) (record { rest = refl }))

apply_option-IsOverridden : (opt : Opt) (c : SimConfig) → IsOverridden c (apply_option opt c)
unfolding apply_option
apply_option-IsOverridden opt c =
    either c _ _ (opt.c == b'g') (record { rest = refl })
      (either c _ _ (opt.c == b'p') (record { rest = refl })
        (either c _ _ (opt.c == b'm') (record { rest = refl })
          (either c _ _ (opt.c == b'o') (option_o-IsOverridden opt.option_index opt.optarg c) (
            either c _ _ (opt.c == b'q') (option_q-IsOverridden opt.option_index opt.optarg c)
              (either c _ _ (opt.c == b'c') (record { rest = refl }) (record { rest = refl }))))))

-- Whatever options are given, `parse_args` changes at most the numbers of generators, parsers and
-- managers, the size of the generator's pool, the packet length, the length of the parser's queue
-- and the mode: the other pools and queues, the hash length and the buffer size keep their values.
pub parse_args-IsOverridden :
    (options : List Opt) (c : SimConfig) → IsOverridden c (parse_args options c)
unfolding parse_args
parse_args-IsOverridden [] c = record { rest = refl }
parse_args-IsOverridden (opt ∷ options) c =
    IsOverridden-trans c (apply_option opt c) (parse_args options (apply_option opt c))
      (apply_option-IsOverridden opt c) (parse_args-IsOverridden options (apply_option opt c))
