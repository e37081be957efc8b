-- ===== src/Tests/Pages.antt =====
-- Examples of the browser's websocket and of its report (spikes/guest/browser_workload.py).
use klados.Base.{ℕ, ◌≡◌, refl, arith, Option, none, some, inr, [], ◌∷◌, ◌++◌}
use klados.Base.Text.{str}
use klados.Base.Result.{ok}
use klados.Codec.{Bytes}
use klados.Vsock.{Stream}
use klados.Browser.{Mask, frame, number, text, Answer, Cdp, payload_of}
use klados.Browser.Frames.{client_frame, Goes}
use klados.Browser.Server.{server_reads, send_received}
use klados.Browser.Session.{Page, answers, request, show, report_and}
use klados.Browser.Answers.{request_answered}
use klados.Harness.Browsers.{search}
use klados.Harness.Reported.{search-report}

-- an answer is its id and its value, a request its id
abbrev two_bytes : Bytes → Option Answer
two_bytes (id ∷ v ∷ []) = some (record { id = some id; value = number v })
two_bytes other = none

abbrev small_cdp : Cdp
small_cdp = record { loads = two_bytes; dumps = λ mid method param. mid ∷ [] }

abbrev small_mask : ℕ → Mask
small_mask mid = record { m0 = 255; m1 = mid; m2 = 3; m3 = 4 }

-- a ping, the answer to another message, the answer to the first, and a byte of what follows
abbrev cut_stream : Stream
cut_stream = (0x89 ∷ 0 ∷ 0x81 ∷ []) ∷ (2 ∷ 9 ∷ 9 ∷ 0x81 ∷ 2 ∷ 1 ∷ []) ∷ (7 ∷ 5 ∷ []) ∷ []

abbrev first_page : Page
first_page = record { mid = 0; sent = []; incoming = cut_stream }

abbrev answer_of : ℕ → ℕ → Option Answer
answer_of id v = some (record { id = some id; value = number v })

request_answered_example :
    (rest : Stream) × (request small_cdp small_mask "Runtime.evaluate" "1" first_page
      ≡ ok (
        number 7,
        record { mid = 1; sent = [] ++ client_frame (small_mask 1) (1 ∷ []); incoming = rest },
      ))
    × Goes rest (5 ∷ [])
unfolding payload_of answers
request_answered_example =
    request_answered small_cdp small_mask "Runtime.evaluate" "1" first_page
      ((0x89, []) ∷ (0x81, 9 ∷ 9 ∷ []) ∷ []) 0x81 (1 ∷ 7 ∷ []) (5 ∷ [])
      (record { id = some 1; value = number 7 }) (omega arith)
      (
        (none, record { is_short = omega arith; parsed = refl }, tt),
        ((answer_of 9 9, record { is_short = omega arith; parsed = refl }, grind arith), tt),
      )
      (record { is_short = omega arith; parsed = refl }) refl (refl, (refl, (refl, tt))) refl

send_received_example :
    (bytes : Bytes) × (frame (small_mask 2) (1 ∷ 2 ∷ 0 ∷ 7 ∷ 7 ∷ []) ≡ ok bytes)
    × (server_reads (bytes ++ 8 ∷ []) ≡ some ((0x81, 1 ∷ 2 ∷ 0 ∷ 7 ∷ 7 ∷ []), 8 ∷ []))
send_received_example =
    send_received (small_mask 2) (1 ∷ 2 ∷ 0 ∷ 7 ∷ 7 ∷ []) (8 ∷ [])
      (record {
        byte0 = omega arith;
        byte1 = omega arith;
        byte2 = omega arith;
        byte3 = omega arith;
      })
      (omega arith, (omega arith, (omega arith, (omega arith, (omega arith, tt))))) (omega arith)

search-report_example :
    search (report_and "\n" (text "ab12") (number 7) (text "ab12"))
    ≡ some (record { token = "ab12"; beat = "7"; ls = "ab12" })
unfolding show str
search-report_example =
    search-report (text "ab12") (number 7) (text "ab12") "\n" (refl, (refl, (refl, (refl, tt))))
      (refl, tt) (refl, (refl, (refl, (refl, tt)))) (inr refl)
