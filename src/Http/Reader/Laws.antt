-- ===== src/Http/Reader/Laws.antt =====
-- The loops of the reader: they end, and what they find comes from a response within the limit.
use agentbox_nix.Shared.{subst, map_option}
use agentbox_nix.Shared.{
  ℕ, zero, suc, ◌+◌, ◌≤◌, ◌<◌, ◌≡◌, ◌≢◌, refl, inl, inr, Option, none, some, [], ◌∷◌, length,
  length-append, ltb, Result, ok, err, arith, Bool-cases,
}
use agentbox_nix.Http.Headers.{HttpProbeError, http_body_start}
use agentbox_nix.Http.Reader.{
  max_http_response_bytes, ReadEvent, bytes, timed_out, broken, Stream, HttpRead, data_read,
  end_of_stream, timeout, Reader, take_event, read_chunk, Loop, after_read, found_or, read_until,
  header_end, read_headers, and_then,
}

abbrev pub IsBounded : Reader → Type 0
IsBounded reader = length reader.response ≤ max_http_response_bytes

-- Data makes the response longer, and no read makes it longer than the limit.
pub record IsRead (before : Reader) (kind : HttpRead) (after : Reader) : Type 0 where
  pub bounded : IsBounded after
  pub grows : kind ≡ data_read → length before.response < length after.response

read_lem :
    (reader : Reader) (event : ReadEvent) (kind : HttpRead) (after : Reader)
    → IsBounded reader
    → take_event reader event ≡ ok (kind, after)
    → IsRead reader kind after
read_lem reader (bytes []) kind after b h = record {
  bounded = ground arith;
  grows = λ e. ground arith;
}
read_lem reader (bytes (x ∷ xs)) kind after b h =
    elim (Bool-cases (ltb max_http_response_bytes (length reader.response + length (x ∷ xs)))) [
      | inl e ↦ absurd (ground arith)
      | inr e ↦
          let longer = length-append reader.response (x ∷ xs) in
          record { bounded = ground (arith, longer); grows = λ _. ground (arith, longer) }
    ]
read_lem reader timed_out kind after b h = record {
  bounded = ground arith;
  grows = λ e. ground arith;
}
read_lem reader broken kind after b h = absurd (ground arith)

-- A loop of reads has a result when the fuel is more than what the limit leaves.
pub read_until_ends :
    {A : Type 0} (fuel : ℕ) (stream : Stream) (found : Reader → Option A)
    (on_end : Reader → Result HttpProbeError A) (reader : Reader)
    → IsBounded reader
    → max_http_response_bytes < fuel + length reader.response
    → read_until fuel stream found on_end reader ≢ none
unfolding read_until
read_until_ends {A = A} zero stream found on_end reader b h = absurd (omega (arith, b, h))
read_until_ends {A = A} (suc fuel) stream found on_end reader b h =
    by_found (found reader)
      (by_read (read_chunk stream reader) refl (read_until_ends fuel stream found on_end))
  where
    by_read :
        (r : Result HttpProbeError (HttpRead × Reader))
        → read_chunk stream reader ≡ r
        → ((after : Reader)
            → IsBounded after
            → max_http_response_bytes < fuel + length after.response
            → read_until fuel stream found on_end after ≢ none)
        → after_read on_end (read_until fuel stream found on_end) r ≢ none
    by_read (err e) eq ih z = cc
    by_read (ok (end_of_stream, after)) eq ih z = cc
    by_read (ok (timeout, after)) eq ih z = cc
    by_read (ok (data_read, after)) eq ih z =
        let r = read_lem reader (stream reader.reads) data_read after b eq in
        ih after r.bounded (omega (arith, h, r.grows refl)) z

    by_found :
        (o : Option A)
        → after_read on_end (read_until fuel stream found on_end) (read_chunk stream reader) ≢ none
        → found_or o
            (after_read on_end (read_until fuel stream found on_end) (read_chunk stream reader))
          ≢ none
    by_found none n z = n z
    by_found (some a) n z = cc

-- A result comes from a response within the limit, of which it was found or with which it ended.
pub read_until_result :
    {A : Type 0} (P : A → Type 0) (fuel : ℕ) (stream : Stream) (found : Reader → Option A)
    (on_end : Reader → Result HttpProbeError A) (reader : Reader) (a : A)
    → ((r : Reader) (x : A) → IsBounded r → found r ≡ some x → P x)
    → ((r : Reader) (x : A) → IsBounded r → on_end r ≡ ok x → P x)
    → IsBounded reader
    → read_until fuel stream found on_end reader ≡ some (ok a)
    → P a
unfolding read_until
read_until_result {A = A} P zero stream found on_end reader a p q b h = cc
read_until_result {A = A} P (suc fuel) stream found on_end reader a p q b h =
    by_found (found reader) refl h (
      by_read (read_chunk stream reader) refl
        (λ r c k. read_until_result P fuel stream found on_end r a p q c k))
  where
    by_read :
        (r : Result HttpProbeError (HttpRead × Reader))
        → read_chunk stream reader ≡ r
        → ((after : Reader)
            → IsBounded after
            → read_until fuel stream found on_end after ≡ some (ok a)
            → P a)
        → after_read on_end (read_until fuel stream found on_end) r ≡ some (ok a)
        → P a
    by_read (err e) eq ih k = absurd (ground arith)
    by_read (ok (end_of_stream, after)) eq ih k =
        let r = read_lem reader (stream reader.reads) end_of_stream after b eq in
        q after a r.bounded (ground arith)
    by_read (ok (timeout, after)) eq ih k =
        let r = read_lem reader (stream reader.reads) timeout after b eq in
        q after a r.bounded (ground arith)
    by_read (ok (data_read, after)) eq ih k =
        let r = read_lem reader (stream reader.reads) data_read after b eq in ih after r.bounded k

    by_found :
        (o : Option A)
        → found reader ≡ o
        → found_or o
            (after_read on_end (read_until fuel stream found on_end) (read_chunk stream reader))
          ≡ some (ok a)
        → (after_read on_end (read_until fuel stream found on_end) (read_chunk stream reader)
              ≡ some (ok a)
            → P a)
        → P a
    by_found none eq k next = next k
    by_found (some x) eq k next = let same : x ≡ a = ground arith in subst P same (p reader x b eq)

pub and_then_ends :
    {A B : Type 0} (m : Loop A) (f : A → Loop B)
    → m ≢ none
    → ((a : A) → m ≡ some (ok a) → f a ≢ none)
    → and_then m f ≢ none
and_then_ends none f n k z = n refl
and_then_ends (some (err e)) f n k z = cc
and_then_ends (some (ok a)) f n k z = k a refl z

pub and_then_ok :
    {A B : Type 0} (m : Loop A) (f : A → Loop B) (b : B)
    → and_then m f ≡ some (ok b)
    → (a : A) × (m ≡ some (ok a)) × (f a ≡ some (ok b))
and_then_ok none f b h = absurd (ground arith)
and_then_ok (some (err e)) f b h = absurd (ground arith)
and_then_ok (some (ok a)) f b h = (a, refl, h)

header_reader :
    (reader : Reader) (x : ℕ × Reader)
    → IsBounded reader
    → header_end reader ≡ some x
    → IsBounded x.1
header_reader reader x b h = by_start (http_body_start reader.response) h
  where
    by_start : (o : Option ℕ) → map_option (λ n. (n, reader)) o ≡ some x → IsBounded x.1
    by_start none h = absurd (ground arith)
    by_start (some n) h =
        let same : (n, reader) ≡ x = ground arith in subst (λ y. IsBounded y.1) same b

pub headers_bounded :
    (fuel : ℕ) (stream : Stream) (x : ℕ × Reader)
    → read_headers fuel stream (record { response = []; reads = 0 }) ≡ some (ok x)
    → IsBounded x.1
headers_bounded fuel stream x h =
    read_until_result (λ y. IsBounded y.1) fuel stream header_end _
      (record { response = []; reads = 0 }) x header_reader (λ r y b k. absurd (ground arith))
      (omega arith) h
