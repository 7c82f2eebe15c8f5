-- ===== src/Http/Reader/Bounds.antt =====
-- The whole reader: it ends, and the bodies that it returns are bounded.
use agentbox_nix.Shared.{◌-◌}
use agentbox_nix.Http.Headers.{response_body_incomplete}
use agentbox_nix.Shared.{subst}
use agentbox_nix.Shared.{
  ℕ, zero, suc, ◌+◌, ◌≤◌, ◌<◌, ◌≡◌, ◌≢◌, sym, ap, ◌∙◌, inl, inr, Char, Option, none, some, List, [],
  ◌∷◌, length, take, drop, leb, ltb, Result, ok, err, arith, Bool-cases,
}
use agentbox_nix.Http.Headers.{HttpProbeError, parse_http_response_headers}
use agentbox_nix.Http.Reader.{
  max_http_response_bytes, Stream, Reader, header_end, read_headers, truncated, read_declared_body,
  read_body, HttpResponse, read_response,
}
use agentbox_nix.Http.Reader.Laws.{
  IsBounded, read_until_ends, read_until_result, and_then_ends, and_then_ok, headers_bounded,
}

body_ends :
    (fuel : ℕ) (stream : Stream) (body_start : ℕ) (declared : Option ℕ) (reader : Reader)
    → max_http_response_bytes < fuel
    → IsBounded reader
    → read_body fuel stream body_start declared reader ≢ none
body_ends fuel stream body_start none reader f b =
    read_until_ends fuel stream _ _ reader b (omega (arith, f))
body_ends fuel stream body_start (some n) reader f b =
    elim (Bool-cases (ltb max_http_response_bytes (body_start + n))) [
      | inl e ↦ rw e (λ z. cc)
      | inr e ↦ rw e (read_until_ends fuel stream _ _ reader b (omega (arith, f)))
    ]

some_ends : {A : Type 0} (r : Result HttpProbeError A) → some r ≢ none
some_ends r z = cc

-- With fuel for one read more than the limit has bytes, the reader returns a response or an error,
-- whatever the stream answers and however long it goes on.
pub read_response_ends :
    (from_utf8 : List ℕ → Option (List Char)) (fuel : ℕ) (stream : Stream)
    → max_http_response_bytes < fuel
    → read_response from_utf8 fuel stream ≢ none
unfolding read_response
read_response_ends from_utf8 fuel stream f =
    and_then_ends (read_headers fuel stream (record { response = []; reads = 0 })) _
      (read_until_ends fuel stream header_end _ (record { response = []; reads = 0 }) (omega arith)
        (omega (arith, f)))
      (λ x h.
        and_then_ends (some (parse_http_response_headers from_utf8 (take x.0 x.1.response))) _
          (some_ends (parse_http_response_headers from_utf8 (take x.0 x.1.response)))
          (λ p _.
            and_then_ends (read_body fuel stream x.0 p.1 x.1) _
              (body_ends fuel stream x.0 p.1 x.1 f (headers_bounded fuel stream x h))
              (λ last _.
                some_ends (ok (record { status_code = p.0; body = drop x.0 last.response })))))

length-drop : (n : ℕ) (xs : List ℕ) → length (drop n xs) ≡ length xs - n
length-drop zero xs = omega arith
length-drop (suc n) [] = omega arith
length-drop (suc n) (x ∷ xs) = omega (arith, length-drop n xs)

length-take : (n : ℕ) (xs : List ℕ) → n ≤ length xs → length (take n xs) ≡ n
length-take zero xs h = omega arith
length-take (suc n) [] h = absurd (omega (arith, h))
length-take (suc n) (x ∷ xs) h = omega (arith, length-take n xs (omega (arith, h)))

length-truncated :
    (n : ℕ) (reader last : Reader) → truncated n reader ≡ some last → length last.response ≡ n
length-truncated n reader last h = elim (Bool-cases (leb n (length reader.response))) [
  | inr e ↦ absurd (ground arith)
  | inl e ↦
      let same : take n reader.response ≡ last.response = ground arith in
      sym (ap length same) ∙ length-take n reader.response (ground arith)
]

-- From a response within the limit, a body whose length is declared is read to exactly that length,
-- and the response stays within the limit.
pub length-read_declared_body :
    (fuel : ℕ) (stream : Stream) (body_start content_length : ℕ) (reader last : Reader)
    → length reader.response ≤ max_http_response_bytes
    → read_declared_body fuel stream body_start content_length reader ≡ some (ok last)
    → (length last.response ≤ max_http_response_bytes)
      × (length (drop body_start last.response) ≡ content_length)
length-read_declared_body fuel stream body_start content_length reader last b h =
    elim (Bool-cases (ltb max_http_response_bytes (body_start + content_length))) [
      | inl e ↦ absurd (ground arith)
      | inr e ↦
          let whole =
            read_until_result (λ r. length r.response ≡ body_start + content_length) fuel stream
              (truncated (body_start + content_length)) (λ _. err response_body_incomplete) reader
              last (λ r x _ k. length-truncated (body_start + content_length) r x k)
              (λ r x _ k. absurd (ground arith)) b (ground arith) in
          (ground (arith, whole), length-drop body_start last.response ∙ omega (arith, whole))
    ]

body_bounded :
    (fuel : ℕ) (stream : Stream) (body_start : ℕ) (declared : Option ℕ) (reader last : Reader)
    → IsBounded reader
    → read_body fuel stream body_start declared reader ≡ some (ok last)
    → IsBounded last
body_bounded fuel stream body_start (some n) reader last b h =
    (length-read_declared_body fuel stream body_start n reader last b h).0
body_bounded fuel stream body_start none reader last b h =
    read_until_result IsBounded fuel stream (λ _. none) (λ r. ok r) reader last
      (λ r x _ k. absurd (ground arith))
      (λ r x c k. let same : r ≡ x = ground arith in subst IsBounded same c) b h

-- A body is never longer than the limit, whatever length the headers declare.
pub read_response_bounded :
    (from_utf8 : List ℕ → Option (List Char)) (fuel : ℕ) (stream : Stream) (response : HttpResponse)
    → read_response from_utf8 fuel stream ≡ some (ok response)
    → length response.body ≤ max_http_response_bytes
unfolding read_response
read_response_bounded from_utf8 fuel stream response h =
    let (x, e, k) =
      and_then_ok (read_headers fuel stream (record { response = []; reads = 0 })) _ response h in
    let (p, _, l) =
      and_then_ok (some (parse_http_response_headers from_utf8 (take x.0 x.1.response))) _ response
        k in
    let (last, m, n) = and_then_ok (read_body fuel stream x.0 p.1 x.1) _ response l in
    let bounded = body_bounded fuel stream x.0 p.1 x.1 last (headers_bounded fuel stream x e) m in
    let same : drop x.0 last.response ≡ response.body = ground arith in
    omega (arith, ap length same, length-drop x.0 last.response, bounded)
