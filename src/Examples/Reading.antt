-- ===== src/Examples/Reading.antt =====
-- A body of four bytes that comes in two segments after the first byte, with one byte too many.
use ctc.Common.{◌≡◌, refl, some, [], ◌∷◌, ◌++◌, pos, negsuc, length}
use ctc.Metering.{drop}
use ctc.Proxy.Body.{
  segment, timed_out, body, failed_body, read_timeout, take_bytes, fill_body, assemble_request_body,
}
use ctc.Proxy.Body.Segments.{Segments, reads, sent, first_bytes, assemble_request_body-first_bytes}

-- What a reading computes with.
program : Unit {0}
unfolding assemble_request_body fill_body take_bytes drop length reads sent
program = tt

abbrev two_segments : Segments
two_segments = (2, 3 ∷ []) ∷ (4, 5 ∷ []) ∷ []

-- The byte too many stays in the socket.
four_bytes :
    assemble_request_body (some (pos 4)) (1 ∷ []) (reads two_segments)
    ≡ (body (1 ∷ 2 ∷ 3 ∷ 4 ∷ []), segment (5 ∷ []) ∷ [])
unfolding program
four_bytes = refl

late : (assemble_request_body (some (pos 4)) (1 ∷ []) (timed_out ∷ [])).0 ≡ failed_body read_timeout
unfolding program
late = refl

-- A length below zero is no error: it cuts bytes off the end of what came with the head.
negative : (assemble_request_body (some (negsuc 0)) (1 ∷ 2 ∷ 3 ∷ []) []).0 ≡ body (1 ∷ 2 ∷ [])
unfolding program
negative = refl

assemble_request_body-first_bytes_example :
    (assemble_request_body (some (pos 4)) (1 ∷ []) (reads two_segments)).0
    ≡ first_bytes 4 ((1 ∷ []) ++ sent two_segments)
assemble_request_body-first_bytes_example =
    assemble_request_body-first_bytes 4 (1 ∷ []) two_segments
