-- ===== src/Http/Headers.antt =====
-- The header part of src/runtime/http_probe/response.rs. `from_utf8` is a parameter: what the bytes
-- are as text, if they are text.
use agentbox_nix.Shared.{zero}
use agentbox_nix.Shared.{
  ℕ, suc, Char, code, Bool, true, false, not, ◌&&◌, Option, none, some, List, [], ◌∷◌, map,
  map_option, filter, is_empty, eqb, ok_or, Result, ok, err, ◌>>=◌, if◌then◌else◌,
}
use agentbox_nix.Text.{
  from_chars, codes, is_prefix, is_whitespace, to_ascii_lowercase, parse_unsigned, u16_max,
}

pub data HttpProbeError : Type 0 where
  request_write_failed response_headers_unavailable invalid_response_headers : HttpProbeError
  response_too_large response_body_incomplete response_read_failed : HttpProbeError

abbrev starts_body : List ℕ → Bool
starts_body bytes = is_prefix (13 ∷ 10 ∷ 13 ∷ 10 ∷ []) bytes

-- `windows(4).position(..)`, then the 4 bytes are passed.
unfoldable pub http_body_start : List ℕ → Option ℕ
http_body_start [] = none
http_body_start (b ∷ bytes) =
    let rest = http_body_start bytes in
    if starts_body (b ∷ bytes) then some 4 else map_option suc rest

abbrev push_front : Char → List (List Char) → List (List Char)
push_front c [] = (c ∷ []) ∷ []
push_front c (line ∷ lines) = (c ∷ line) ∷ lines

-- A carriage return that a line feed follows.
abbrev at_line_end : Char → List Char → Bool
at_line_end c [] = false
at_line_end c (d ∷ _) = eqb (code c) 13 && eqb (code d) 10

-- `split("\r\n")`, with the number of characters that are left to pass over.
unfoldable pub split_lines : List Char → ℕ → List (List Char)
split_lines [] skip = [] ∷ []
split_lines (c ∷ text) (suc skip) = split_lines text skip
split_lines (c ∷ text) zero =
    let next = split_lines text 1 in
    let same = split_lines text 0 in if at_line_end c text then [] ∷ next else push_front c same

abbrev split_spaces : List Char → List (List Char)
split_spaces [] = [] ∷ []
split_spaces (c ∷ text) =
    let rest = split_spaces text in if is_whitespace (code c) then [] ∷ rest else push_front c rest

-- `split_whitespace`
unfoldable pub split_whitespace : List Char → List (List Char)
split_whitespace text = filter (λ part. not (is_empty part)) (split_spaces text)

abbrev push_name : Char → Option (List Char × List Char) → Option (List Char × List Char)
push_name c none = none
push_name c (some (name, value)) = some (c ∷ name, value)

-- `split_once(':')`
unfoldable pub split_once : List Char → Option (List Char × List Char)
split_once [] = none
split_once (c ∷ text) =
    let rest = split_once text in if eqb (code c) 58 then some ([], text) else push_name c rest

abbrev trim_start : List Char → List Char
trim_start [] = []
trim_start (c ∷ text) =
    let rest = trim_start text in if is_whitespace (code c) then rest else c ∷ text

abbrev push_back : Char → List Char → List Char
push_back c [] = if is_whitespace (code c) then [] else c ∷ []
push_back c (d ∷ rest) = c ∷ d ∷ rest

abbrev trim_end : List Char → List Char
trim_end [] = []
trim_end (c ∷ text) = push_back c (trim_end text)

-- `usize` of a 64-bit machine
abbrev usize_max : ℕ
usize_max = 18446744073709551615

abbrev same_letters : List ℕ → List ℕ → Bool
same_letters [] [] = true
same_letters [] (y ∷ ys) = false
same_letters (x ∷ xs) [] = false
same_letters (x ∷ xs) (y ∷ ys) =
    let rest = same_letters xs ys in eqb (to_ascii_lowercase x) (to_ascii_lowercase y) && rest

abbrev is_content_length : List Char → Bool
is_content_length name = same_letters (map code name) (codes "content-length")

abbrev take_length : Option (List Char × List Char) → Option ℕ → Result HttpProbeError (Option ℕ)
take_length none current = ok current
take_length (some (name, value)) current =
    if is_content_length name
    then (do
      length ←
          ok_or (parse_unsigned (from_chars (trim_end (trim_start value))) usize_max)
            invalid_response_headers
      ok (some length))
    else ok current

-- The loop over the header lines: the last length counts.
unfoldable pub content_length : List (List Char) → Option ℕ → Result HttpProbeError (Option ℕ)
content_length [] current = ok current
content_length (line ∷ lines) current = do
  next ← take_length (split_once line) current
  content_length lines next

abbrev status_of : List (List Char) → Result HttpProbeError ℕ
status_of [] = err invalid_response_headers
status_of (version ∷ []) = err invalid_response_headers
status_of (version ∷ status ∷ _) =
    if is_prefix (codes "HTTP/1.") (map code version)
    then ok_or (parse_unsigned (from_chars status) u16_max) invalid_response_headers
    else err invalid_response_headers

abbrev parse_lines : List (List Char) → Result HttpProbeError (ℕ × Option ℕ)
parse_lines [] = err invalid_response_headers
parse_lines (status_line ∷ lines) = do
  status ← status_of (split_whitespace status_line)
  length ← content_length lines none
  ok (status, length)

unfoldable pub parse_http_response_headers :
    (List ℕ → Option (List Char)) → List ℕ → Result HttpProbeError (ℕ × Option ℕ)
unfolding split_lines split_whitespace split_once content_length
parse_http_response_headers from_utf8 headers = do
  text ← ok_or (from_utf8 headers) invalid_response_headers
  parse_lines (split_lines text 0)
