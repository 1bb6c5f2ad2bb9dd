-- ===== src/LossRatio/Counters.antt =====
-- The counters that the client prints are those of the server.
use freepacket.Base.{
  chars, ℕ, zero, suc, ◌+◌, ◌-◌, ◌*◌, ◌/◌, ◌%◌, ◌^◌, ◌<◌, ◌≤◌, ◌≡◌, refl, sym, ap, ◌∙◌, List, [],
  ◌∷◌, ◌++◌, append_assoc, append-nil, some, true, if◌then◌else◌, Bool-cases, inl, inr, ltb, length,
  length-append, length-replicate, length-drop, drop_all, All, map, replicate, decimal, print_int,
  returns, is_negative, arith,
}
use native.Mathlib.Nat.{pow-suc}
use freepacket.Config.Chars.{equal}
use freepacket.LossRatio.{Drop, set_speed, speed_request}
use freepacket.LossRatio.Speed.{get_update_speed-request}
use freepacket.LossRatio.Dialog.{
  Read, got, read_into, c_string, word_bytes, word_of, image, words, print_words, print_loss,
  greeting, server_writes, process_ipc_request, client_request, client_rounds, start_ipc_client,
}

-- The counters of a `drop_t`, in the order of its fields.
abbrev pub counters : Drop → List ℕ
counters d =
    d.drop_cause_generator_pool_empty ∷ d.drop_cause_parser_queue_full
    ∷ d.drop_cause_parser_pool_empty ∷ d.drop_cause_unsupport_protocol ∷ d.drop_cause_empty_payload
    ∷ d.drop_cause_manager_pool_empty ∷ d.send_total ∷ []

word_of-word_bytes : (n v : ℕ) → v < 256 ^ n → word_of (word_bytes n v) ≡ v
unfolding word_of word_bytes
word_of-word_bytes zero v h = omega arith
word_of-word_bytes (suc n) v h =
    ap (λ w. v % 256 + 256 * w) (word_of-word_bytes n (v / 256) (omega (arith, pow-suc 256 n)))
    ∙ omega arith

words-cons :
    (n v : ℕ) (rest : List ℕ)
    → v < 2 ^ 64
    → words (suc n) (word_bytes 8 v ++ rest) ≡ v ∷ words n rest
unfolding words word_bytes
words-cons n v rest h = ap (λ w. w ∷ words n rest) (word_of-word_bytes 8 v (omega arith))

-- The bytes of some 64-bit numbers.
unfoldable memory_of : List ℕ → List ℕ
memory_of [] = []
memory_of (v ∷ vs) = word_bytes 8 v ++ memory_of vs

words-memory_of : (vs : List ℕ) → All (λ n. n < 2 ^ 64) vs → words (length vs) (memory_of vs) ≡ vs
unfolding memory_of words
words-memory_of [] all = refl
words-memory_of (v ∷ vs) (small, all) =
    words-cons (length vs) v (memory_of vs) small ∙ ap (λ ws. v ∷ ws) (words-memory_of vs all)

image-memory_of : (d : Drop) → image d ≡ memory_of (counters d)
unfolding image memory_of word_bytes
image-memory_of d = refl

words-image : (d : Drop) → All (λ n. n < 2 ^ 64) (counters d) → words 7 (image d) ≡ counters d
words-image d all = ap (words 7) (image-memory_of d) ∙ words-memory_of (counters d) all

length-image : (d : Drop) → length (image d) ≡ 56
unfolding image word_bytes
length-image d = refl

read_into_all : (buf bytes : List ℕ) → length buf ≤ length bytes → read_into buf (got bytes) ≡ bytes
unfolding read_into
read_into_all buf bytes h =
    ap (λ rest. bytes ++ rest) (drop_all (length bytes) buf h) ∙ append-nil bytes

client_round-image :
    (d : Drop) (reads : List Read) (loss output : List ℕ)
    → length loss ≡ 56
    → client_rounds (got (image d) ∷ reads) loss output
      ≡ client_rounds reads (image d) (output ++ print_loss (image d))
unfolding client_rounds image word_bytes
client_round-image d reads loss output h =
    ap (λ l. client_rounds reads l (output ++ print_loss l))
      (read_into_all loss (image d) (omega (arith, h)))

-- The line of some counters: the seven numbers, with commas between them, and a newline.
unfoldable pub line_of : Drop → List ℕ
line_of d =
    decimal 20 d.drop_cause_generator_pool_empty
    ++ (chars ","
        ++ (decimal 20 d.drop_cause_parser_queue_full
            ++ (chars ","
                ++ (decimal 20 d.drop_cause_parser_pool_empty
                    ++ (chars ","
                        ++ (decimal 20 d.drop_cause_unsupport_protocol
                            ++ (chars ","
                                ++ (decimal 20 d.drop_cause_empty_payload
                                    ++ (chars ","
                                        ++ (decimal 20 d.drop_cause_manager_pool_empty
                                            ++ (chars ","
                                                ++ (decimal 20 d.send_total ++ 10 ∷ []))))))))))))

print_words-counters : (d : Drop) → print_words (counters d) ≡ line_of d
unfolding print_words line_of
print_words-counters d = refl

-- The lines of several counters.
unfoldable pub lines : List Drop → List ℕ
lines [] = []
lines (d ∷ ds) = line_of d ++ lines ds

-- The memory of the client after them.
unfoldable pub last_loss : List ℕ → List Drop → List ℕ
last_loss loss [] = loss
last_loss loss (d ∷ ds) = last_loss (image d) ds

client_rounds-images :
    (ds : List Drop) (loss output : List ℕ)
    → length loss ≡ 56
    → All (λ d. All (λ n. n < 2 ^ 64) (counters d)) ds
    → client_rounds (map (λ d. got (image d)) ds ++ got [] ∷ []) loss output
      ≡ returns (last_loss loss ds, output ++ lines ds)
unfolding client_rounds lines last_loss print_loss
client_rounds-images [] loss output h all = ap (λ o. returns (loss, o)) (sym (append-nil output))
client_rounds-images (d ∷ ds) loss output h (small, all) =
    client_round-image d (map (λ d. got (image d)) ds ++ got [] ∷ []) loss output h
    ∙ client_rounds-images ds (image d) (output ++ print_loss (image d)) (length-image d) all
    ∙ ap (λ o. returns (last_loss (image d) ds, o))
        (append_assoc output (print_loss (image d)) (lines ds)
          ∙ ap (λ ws. output ++ (print_words ws ++ lines ds)) (words-image d small)
          ∙ ap (λ line. output ++ (line ++ lines ds)) (print_words-counters d))

server_writes-map : (ds : List Drop) → server_writes (map (λ d. (d, true)) ds) ≡ map image ds
unfolding server_writes
server_writes-map [] = refl
server_writes-map (d ∷ ds) = ap (λ ws. image d ∷ ws) (server_writes-map ds)

length-decimal : (fuel n : ℕ) → length (decimal fuel n) ≤ fuel
unfolding decimal
length-decimal zero n = omega arith
length-decimal (suc fuel) n = elim (Bool-cases (ltb n 10)) [
  | inl one ↦ rw one (omega arith)
  | inr more ↦ rw more (
      omega (
        arith,
        length-append (decimal fuel (n / 10)) ((48 + n % 10) ∷ []),
        length-decimal fuel (n / 10),
      ))
]

length-print_int : (n : ℕ) → length (print_int n) ≤ 12
unfolding print_int
length-print_int n = elim (Bool-cases (is_negative n)) [
  | inl minus ↦ rw minus (omega (arith, length-decimal 11 (2 ^ 32 - n)))
  | inr plus ↦ rw plus (omega (arith, length-decimal 11 n))
]

length-speed_request : (n : ℕ) → length (speed_request n) ≤ 29
unfolding speed_request
length-speed_request n = omega (arith, length-append set_speed (print_int n), length-print_int n)

-- The 1024 bytes of the request.
unfoldable pub request_of : ℕ → List ℕ
request_of n = speed_request n ++ replicate (1024 - length (speed_request n)) 0

length-request_of : (n : ℕ) → length (request_of n) ≡ 1024
unfolding request_of
length-request_of n = omega (
  arith,
  length-append (speed_request n) (replicate (1024 - length (speed_request n)) 0),
  length-replicate {A = ℕ} (1024 - length (speed_request n)) 0,
  length-speed_request n,
)

length-greeting : (recv_buf : List ℕ) → length recv_buf ≡ 1024 → length (greeting recv_buf) ≡ 1024
unfolding greeting
length-greeting recv_buf h = omega (arith, length-drop 8 recv_buf, h)

client_request-greeting :
    (n : ℕ) (recv_buf : List ℕ) → client_request n (got (greeting recv_buf)) ≡ some (request_of n)
unfolding client_request greeting read_into c_string equal request_of
client_request-greeting n recv_buf = refl

-- The client and the server of the counters, when each read gets what one write has sent, and the
-- server has a `recv_buf` of 1024 bytes: both get from SYN_REQ to the counters. The server reads the
-- speed that the client sends, or its absolute value when it is negative. The client ends with the
-- last of the counters, after it has printed each of them, 64-bit numbers, as the server had
-- them: one line for each, with the seven numbers in base 10 and commas between them.
pub dialog_same :
    (n : ℕ) (recv_buf loss : List ℕ) (ds : List Drop)
    → n < 2 ^ 32
    → length recv_buf ≡ 1024
    → length loss ≡ 56
    → All (λ d. All (λ n. n < 2 ^ 64) (counters d)) ds
    → (process_ipc_request recv_buf (got (request_of n)) (map (λ d. (d, true)) ds)
        ≡ returns (greeting recv_buf ∷ map image ds, if is_negative n then 2 ^ 32 - n else n))
      × (start_ipc_client n
            (got (greeting recv_buf))
            (map (λ d. got (image d)) ds ++ got [] ∷ [])
            loss
          ≡ returns (request_of n, last_loss loss ds, lines ds))
unfolding process_ipc_request start_ipc_client request_of
dialog_same n recv_buf loss ds small size room all =
    let read =
      read_into_all (greeting recv_buf) (request_of n)
        (omega (arith, length-greeting recv_buf size, length-request_of n)) in
    let speed = get_update_speed-request n (1024 - length (speed_request n)) small in
    (
      rw (process_ipc_request, read, request_of, speed)
          (ap (λ ws. returns (greeting recv_buf ∷ ws, if is_negative n then 2 ^ 32 - n else n))
            (server_writes-map ds)),
      rw
          (
            start_ipc_client,
            client_request-greeting n recv_buf,
            client_rounds-images ds loss [] room all,
          )
          refl,
    )
