-- ===== src/Examples/Responses.antt =====
-- The reader of responses at concrete streams.
use agentbox_nix.Shared.{zero}
use agentbox_nix.Shared.{
  ℕ, suc, ◌≤◌, ◌≡◌, ◌≢◌, refl, Option, none, some, Char, List, [], ◌∷◌, length, ok, arith,
}
use agentbox_nix.Text.{chars, codes, parse_unsigned, is_whitespace}
use agentbox_nix.Http.Headers.{http_body_start, parse_http_response_headers}
use agentbox_nix.Http.Reader.{
  Stream, bytes, Reader, HttpResponse, read_response, read_declared_body, read_until,
}
use agentbox_nix.Http.Reader.Bounds.{read_response_ends, read_response_bounded}

-- The stream never ends.
abbrev endless : Stream
endless n = bytes (120 ∷ [])

abbrev headers : List Char
headers = chars "HTTP/1.1 204 No Content"

abbrev from_utf8 : List ℕ → Option (List Char)
from_utf8 text = some headers

read_response_ends_example : read_response from_utf8 65537 endless ≢ none
read_response_ends_example = read_response_ends from_utf8 65537 endless (omega arith)

-- The headers are one read, and then the stream is at its end.
abbrev no_content : Stream
no_content zero = bytes (codes "HTTP/1.1 204 No Content\r\n\r\n")
no_content (suc n) = bytes []

abbrev response : HttpResponse
response = record { status_code = 204; body = [] }

is_read : read_response from_utf8 3 no_content ≡ some (ok response)
unfolding read_response read_until http_body_start parse_http_response_headers parse_unsigned
    is_whitespace
is_read = refl

read_response_bounded_example : length response.body ≤ 65536
read_response_bounded_example = read_response_bounded from_utf8 3 no_content response is_read

abbrev before : Reader
before = record { response = 1 ∷ 2 ∷ []; reads = 0 }

abbrev after : Reader
after = record { response = 1 ∷ 2 ∷ 120 ∷ 120 ∷ []; reads = 2 }

body_is_read : read_declared_body 3 endless 2 2 before ≡ some (ok after)
unfolding read_until
body_is_read = refl
