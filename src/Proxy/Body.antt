-- ===== src/Proxy/Body.antt =====
-- proxy.py: assemble_request_body for a body with a Content-Length. The client is the list of what its
-- socket will give: the bytes of a segment, or a timeout; the end of the list, and a segment with no
-- bytes, is the end of the file. `length` is the header's value, `none` where it is no number.
use ctc.Common.{
  ℕ, zero, suc, ◌+◌, ◌-◌, Bool, true, false, Option, none, some, List, [], ◌∷◌, ◌++◌, ℤ, pos,
  negsuc, length, ltb, leb, if◌then◌else◌,
}
use ctc.Json.{Text}
use ctc.Metering.{drop}
pub mod Segments

pub data Read : Type 0 where
  segment : Text → Read
  timed_out : Read

-- The reasons of a RequestBodyError.
pub data BodyError : Type 0 where
  malformed_length read_timeout end_of_file : BodyError

pub data Body : Type 0 where
  body : Text → Body
  failed_body : BodyError → Body

unfoldable pub take_bytes : ℕ → Text → Text
take_bytes n [] = []
take_bytes zero (c ∷ t) = []
take_bytes (suc n) (c ∷ t) = c ∷ take_bytes n t

abbrev pub prepend : Text → Body × List Read → Body × List Read
prepend t (body b, rs) = (body (t ++ b), rs)
prepend t (failed_body e, rs) = (failed_body e, rs)

-- The loop, with `missing` bytes to go; `read(missing)` leaves the rest of a longer segment. The second
-- part is what the socket has left.
unfoldable pub fill_body : ℕ → List Read → Body × List Read
fill_body zero rs = (body [], rs)
fill_body (suc missing) [] = (failed_body end_of_file, [])
fill_body (suc missing) (timed_out ∷ rs) = (failed_body read_timeout, rs)
fill_body (suc missing) (segment [] ∷ rs) = (failed_body end_of_file, rs)
fill_body (suc missing) (segment (c ∷ t) ∷ rs) =
    let rest = fill_body (suc missing - length (c ∷ t)) rs in
    if leb (length (c ∷ t)) (suc missing)
    then prepend (c ∷ t) rest
    else (body (take_bytes (suc missing) (c ∷ t)), segment (drop (suc missing) (c ∷ t)) ∷ rs)

-- `body[:cl]`; a negative bound counts from the end.
abbrev pub slice_to : ℤ → Text → Text
slice_to (pos n) t = take_bytes n t
slice_to (negsuc k) t = take_bytes (length t - suc k) t

abbrev pub assemble_known : ℤ → Text → List Read → Body × List Read
assemble_known (pos n) leftover rs =
    if ltb n (length leftover)
    then (body (slice_to (pos n) leftover), rs)
    else prepend leftover (fill_body (n - length leftover) rs)
assemble_known (negsuc k) leftover rs = (body (slice_to (negsuc k) leftover), rs)

unfoldable pub assemble_request_body : Option ℤ → Text → List Read → Body × List Read
assemble_request_body none leftover rs = (failed_body malformed_length, rs)
assemble_request_body (some cl) leftover rs = assemble_known cl leftover rs
