-- ===== src/Http/Reader.antt =====
-- The reader of src/runtime/http_probe/response.rs. A stream answers its n-th read with bytes, a
-- timeout or an error; no bytes are the end. The loops run on fuel.
pub mod Laws
pub mod Bounds
use agentbox_nix.Shared.{map_option}
use agentbox_nix.Shared.{
  ℕ, zero, suc, ◌+◌, ◌-◌, ◌*◌, ◌≤◌, ◌<◌, Char, Bool, true, false, Option, none, some, List, [], ◌∷◌,
  ◌++◌, length, take, drop, leb, ltb, Result, ok, err, ◌>>=◌, if◌then◌else◌,
}
use agentbox_nix.Http.Headers.{
  HttpProbeError, response_headers_unavailable, response_too_large, response_body_incomplete,
  response_read_failed, http_body_start, parse_http_response_headers,
}

abbrev pub max_http_response_bytes : ℕ
max_http_response_bytes = 65536

pub data ReadEvent : Type 0 where
  bytes : List ℕ → ReadEvent
  timed_out broken : ReadEvent

abbrev pub Stream : Type 0
Stream = ℕ → ReadEvent

pub data HttpRead : Type 0 where
  data_read end_of_stream timeout : HttpRead

-- The response so far, and the number of reads.
pub record Reader : Type 0 where
  pub response : List ℕ
  pub reads : ℕ

abbrev pub take_event : Reader → ReadEvent → Result HttpProbeError (HttpRead × Reader)
take_event reader (bytes []) = ok (end_of_stream, record reader { reads = suc reader.reads })
take_event reader (bytes (b ∷ bs)) =
    if ltb max_http_response_bytes (length reader.response + length (b ∷ bs))
    then err response_too_large
    else ok (data_read, record { response = reader.response ++ b ∷ bs; reads = suc reader.reads })
take_event reader timed_out = ok (timeout, record reader { reads = suc reader.reads })
take_event reader broken = err response_read_failed

abbrev pub read_chunk : Stream → Reader → Result HttpProbeError (HttpRead × Reader)
read_chunk stream reader = take_event reader (stream reader.reads)

-- A loop that goes on after data: `none` when the fuel is out.
abbrev pub Loop : Type 0 → Type 0
Loop A = Option (Result HttpProbeError A)

abbrev pub after_read :
    {A : Type 0}
    → (on_end : Reader → Result HttpProbeError A) → (Reader → Loop A)
    → Result HttpProbeError (HttpRead × Reader)
    → Loop A
after_read on_end again (err e) = some (err e)
after_read on_end again (ok (data_read, reader)) = again reader
after_read on_end again (ok (end_of_stream, reader)) = some (on_end reader)
after_read on_end again (ok (timeout, reader)) = some (on_end reader)

abbrev pub found_or : {A : Type 0} → Option A → Loop A → Loop A
found_or (some a) otherwise = some (ok a)
found_or none otherwise = otherwise

-- A loop of reads: it stops with a value that the response already has, and else reads.
unfoldable pub read_until :
    {A : Type 0}
    → ℕ
    → Stream
    → (found : Reader → Option A) → (on_end : Reader → Result HttpProbeError A) → Reader
    → Loop A
read_until zero stream found on_end reader = none
read_until (suc fuel) stream found on_end reader =
    found_or (found reader)
      (after_read on_end (read_until fuel stream found on_end) (read_chunk stream reader))

abbrev pub header_end : Reader → Option (ℕ × Reader)
header_end reader =
    map_option (λ body_start. (body_start, reader)) (http_body_start reader.response)

abbrev pub read_headers : ℕ → Stream → Reader → Loop (ℕ × Reader)
read_headers fuel stream reader =
    read_until fuel stream header_end (λ _. err response_headers_unavailable) reader

-- `truncate`, once enough is there.
abbrev pub truncated : ℕ → Reader → Option Reader
truncated response_len reader =
    if leb response_len (length reader.response)
    then some (record reader { response = take response_len reader.response })
    else none

-- A sum that overflows is over the limit as well.
abbrev pub read_declared_body : ℕ → Stream → (body_start content_length : ℕ) → Reader → Loop Reader
read_declared_body fuel stream body_start content_length reader =
    if ltb max_http_response_bytes (body_start + content_length)
    then some (err response_too_large)
    else read_until fuel stream (truncated (body_start + content_length))
        (λ _. err response_body_incomplete) reader

abbrev pub read_undeclared_body : ℕ → Stream → Reader → Loop Reader
read_undeclared_body fuel stream reader =
    read_until fuel stream (λ _. none) (λ last. ok last) reader

abbrev pub read_body : ℕ → Stream → ℕ → Option ℕ → Reader → Loop Reader
read_body fuel stream body_start none reader = read_undeclared_body fuel stream reader
read_body fuel stream body_start (some content_length) reader =
    read_declared_body fuel stream body_start content_length reader

abbrev pub and_then : {A B : Type 0} → Loop A → (A → Loop B) → Loop B
and_then none f = none
and_then (some (err e)) f = some (err e)
and_then (some (ok a)) f = f a

pub record HttpResponse : Type 0 where
  pub status_code : ℕ
  pub body : List ℕ

-- `HttpResponseReader::read`
unfoldable pub read_response : (List ℕ → Option (List Char)) → ℕ → Stream → Loop HttpResponse
read_response from_utf8 fuel stream =
    and_then (read_headers fuel stream (record { response = []; reads = 0 }))
      (λ (body_start, reader).
        and_then (some (parse_http_response_headers from_utf8 (take body_start reader.response)))
          (λ (status, content_length).
            and_then (read_body fuel stream body_start content_length reader) (λ last.
              some (ok (record { status_code = status; body = drop body_start last.response })))))
