-- ===== src/LossRatio/Dialog.antt =====
-- The dialog of `process_ipc_request` and `start_ipc_client`. What a read of the socket gives and
-- whether a write succeeds are arguments; the socket itself is not modelled.
use freepacket.Base.{
  ℕ, zero, suc, ◌+◌, ◌-◌, ◌*◌, ◌/◌, ◌%◌, List, [], ◌∷◌, ◌++◌, drop, take, Option, none, some, Bool,
  true, false, leb, ◌==◌, if◌then◌else◌, length, replicate, chars, decimal, Outcome, returns, spins,
  overruns,
}
use freepacket.Config.Chars.{equal}
use freepacket.LossRatio.{Drop, speed_request, get_update_speed}

-- The result of `read`: -1, or the bytes that it got, at most the 1024 that are asked for, and none
-- of them at the end of the stream.
pub data Read : Type 0 where
  fails : Read
  got : List ℕ → Read

-- `read(fd, buf, …)` into `buf`.
unfoldable pub read_into : List ℕ → Read → List ℕ
read_into buf fails = buf
read_into buf (got bytes) = bytes ++ drop (length bytes) buf

-- The text of a buffer, up to its first 0.
unfoldable pub c_string : List ℕ → List ℕ
c_string [] = []
c_string (c ∷ cs) = let rest = c ∷ c_string cs in if c == 0 then [] else rest

-- A number of `n` bytes in memory, lowest first.
unfoldable pub word_bytes : ℕ → ℕ → List ℕ
word_bytes zero v = []
word_bytes (suc n) v = v % 256 ∷ word_bytes n (v / 256)

unfoldable pub word_of : List ℕ → ℕ
word_of [] = 0
word_of (byte ∷ bytes) = byte + 256 * word_of bytes

-- The bytes of a `drop_t`.
unfoldable pub image : Drop → List ℕ
image d =
    word_bytes 8 d.drop_cause_generator_pool_empty
    ++ (word_bytes 8 d.drop_cause_parser_queue_full
        ++ (word_bytes 8 d.drop_cause_parser_pool_empty
            ++ (word_bytes 8 d.drop_cause_unsupport_protocol
                ++ (word_bytes 8 d.drop_cause_empty_payload
                    ++ (word_bytes 8 d.drop_cause_manager_pool_empty
                        ++ word_bytes 8 d.send_total)))))

-- The 64-bit numbers of a buffer, `n` of them.
unfoldable pub words : ℕ → List ℕ → List ℕ
words zero bytes = []
words (suc n) bytes = word_of (take 8 bytes) ∷ words n (drop 8 bytes)

-- `%lu` of each, with commas between them and a newline at the end.
unfoldable pub print_words : List ℕ → List ℕ
print_words [] = 10 ∷ []
print_words (w ∷ []) = decimal 20 w ++ (10 ∷ [])
print_words (w ∷ v ∷ ws) = decimal 20 w ++ (44 ∷ print_words (v ∷ ws))

-- The line that the client prints of its `global_loss`.
unfoldable pub print_loss : List ℕ → List ℕ
print_loss loss = print_words (words 7 loss)

-- What `process_ipc_request` writes first, on a `recv_buf` of 1024 bytes.
unfoldable pub greeting : List ℕ → List ℕ
greeting recv_buf = chars "SYN_REQ" ++ (0 ∷ drop 8 recv_buf)

-- The rounds of its loop: the counters at each, and whether the write succeeds.
unfoldable pub server_writes : List (Drop × Bool) → List (List ℕ)
server_writes [] = []
server_writes ((d, true) ∷ rounds) = image d ∷ server_writes rounds
server_writes ((d, false) ∷ rounds) = []

-- `process_ipc_request`: its writes and the speed of its rounds. The test for SYN_OK has no effect.
unfoldable pub process_ipc_request :
    List ℕ → Read → List (Drop × Bool) → Outcome (List (List ℕ) × ℕ)
process_ipc_request recv_buf answer rounds =
    let sent = greeting recv_buf in
    elim (get_update_speed (read_into sent answer)) [
      | none ↦ overruns
      | some speed ↦ returns (sent ∷ server_writes rounds, speed)
    ]

-- The request of `start_ipc_client`; `none` is a first read of anything but SYN_REQ.
unfoldable pub client_request : ℕ → Read → Option (List ℕ)
client_request update_speed first =
    let text = speed_request update_speed in
    if equal (c_string (read_into (replicate 1024 0) first)) (chars "SYN_REQ")
    then some (text ++ replicate (1024 - length text) 0)
    else none

-- The loop of `start_ipc_client` on the bytes of its `global_loss`, with the output so far. The
-- result -1 of a read is a size that no memory has.
unfoldable pub client_rounds : List Read → List ℕ → List ℕ → Outcome (List ℕ × List ℕ)
client_rounds [] loss output = spins
client_rounds (fails ∷ reads) loss output = overruns
client_rounds (got [] ∷ reads) loss output = returns (loss, output)
client_rounds (got (byte ∷ bytes) ∷ reads) loss output =
    let loss' = read_into loss (got (byte ∷ bytes)) in
    let rest = client_rounds reads loss' (output ++ print_loss loss') in
    if leb (length (byte ∷ bytes)) 56 then rest else overruns

-- `start_ipc_client`: the request that it sends, the counters and the output at its end.
unfoldable pub start_ipc_client : ℕ → Read → List Read → List ℕ → Outcome (List ℕ × List ℕ × List ℕ)
start_ipc_client update_speed first reads loss = elim (client_request update_speed first) [
  | none ↦ returns ([], loss, [])
  | some request ↦ elim (client_rounds reads loss []) [
    | returns (loss', output) ↦ returns (request, loss', output)
    | spins ↦ spins
    | overruns ↦ overruns
  ]
]
