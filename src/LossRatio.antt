-- ===== src/LossRatio.antt =====
-- lossratio.c: the request for an update speed that the client sends and the server reads, the
-- counters that the server sends, and the sums of `drop_ratio`. The sockets are not modelled.
pub mod Speed
pub mod Dialog
pub mod Counters
use freepacket.Base.{
  ℕ, zero, suc, ◌+◌, ◌-◌, ◌*◌, ◌/◌, ◌%◌, ◌^◌, List, [], ◌∷◌, ◌++◌, Option, none, some, true, false,
  ltb, ◌==◌, if◌then◌else◌, u32, u64, sub64, is_negative, print_int,
}
use freepacket.Config.Chars.{is_digit, atoi}

-- `drop_t`
pub record Drop : Type 0 where
  pub drop_cause_generator_pool_empty : ℕ
  pub drop_cause_parser_queue_full : ℕ
  pub drop_cause_parser_pool_empty : ℕ
  pub drop_cause_unsupport_protocol : ℕ
  pub drop_cause_empty_payload : ℕ
  pub drop_cause_manager_pool_empty : ℕ
  pub send_total : ℕ

-- `"SYN_OK:SET_SPEED:"`
abbrev pub set_speed : List ℕ
set_speed = 83 ∷ 89 ∷ 78 ∷ 95 ∷ 79 ∷ 75 ∷ 58 ∷ 83 ∷ 69 ∷ 84 ∷ 95 ∷ 83 ∷ 80 ∷ 69 ∷ 69 ∷ 68 ∷ 58 ∷ []

-- The `snd_buf` of `start_ipc_client` after `sprintf`: 1024 bytes that were cleared.
unfoldable pub speed_request : ℕ → List ℕ
speed_request update_speed = set_speed ++ print_int update_speed

-- `get_update_speed(buf)`; `none` is a read past the end of the buffer, on a text without a digit.
unfoldable pub get_update_speed : List ℕ → Option ℕ
get_update_speed [] = none
get_update_speed (c ∷ cs) =
    let rest = get_update_speed cs in if is_digit c then some (atoi (c ∷ cs)) else rest

-- The sum over the causes in `drop_ratio`.
unfoldable pub drop_sum : Drop → ℕ
drop_sum d =
    let s₁ = u64 (0 + d.drop_cause_generator_pool_empty) in
    let s₂ = u64 (s₁ + d.drop_cause_parser_queue_full) in
    let s₃ = u64 (s₂ + d.drop_cause_parser_pool_empty) in
    let s₄ = u64 (s₃ + d.drop_cause_unsupport_protocol) in
    let s₅ = u64 (s₄ + d.drop_cause_empty_payload) in u64 (s₅ + d.drop_cause_manager_pool_empty)
