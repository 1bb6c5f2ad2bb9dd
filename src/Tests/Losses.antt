-- ===== src/Tests/Losses.antt =====
-- A client that asks for counters every 500 milliseconds and gets them twice.
use freepacket.Base.{
  ℕ, ◌-◌, ◌*◌, ◌^◌, ◌≡◌, List, [], ◌∷◌, ◌++◌, map, true, returns, arith, replicate,
  length-replicate, if◌then◌else◌, is_negative,
}
use freepacket.LossRatio.{Drop}
use freepacket.LossRatio.Dialog.{got, image, greeting, process_ipc_request, start_ipc_client}
use freepacket.LossRatio.Counters.{request_of, last_loss, lines, dialog_same}

abbrev counted : ℕ → Drop
counted n = record {
  drop_cause_generator_pool_empty = 0;
  drop_cause_parser_queue_full = n;
  drop_cause_parser_pool_empty = 1;
  drop_cause_unsupport_protocol = 0;
  drop_cause_empty_payload = 2 ^ 40;
  drop_cause_manager_pool_empty = 0;
  send_total = 100 * n;
}

abbrev twice : List Drop
twice = counted 3 ∷ counted 5 ∷ []

dialog_same_example :
    (process_ipc_request (replicate 1024 7) (got (request_of 500)) (map (λ d. (d, true)) twice)
      ≡ returns (
        greeting (replicate 1024 7) ∷ map image twice,
        if is_negative 500 then 2 ^ 32 - 500 else 500,
      ))
    × (start_ipc_client 500
          (got (greeting (replicate 1024 7)))
          (map (λ d. got (image d)) twice ++ got [] ∷ [])
          (replicate 56 0)
        ≡ returns (request_of 500, last_loss (replicate 56 0) twice, lines twice))
dialog_same_example =
    dialog_same 500 (replicate 1024 7) (replicate 56 0) twice (omega arith)
      (length-replicate {A = ℕ} 1024 7) (length-replicate {A = ℕ} 56 0)
      (
        (
          omega arith,
          (
            omega arith,
            (omega arith, (omega arith, (omega arith, (omega arith, (omega arith, tt))))),
          ),
        ),
        (
          (
            omega arith,
            (
              omega arith,
              (omega arith, (omega arith, (omega arith, (omega arith, (omega arith, tt))))),
            ),
          ),
          tt,
        ),
      )
