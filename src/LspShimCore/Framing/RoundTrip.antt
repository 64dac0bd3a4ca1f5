-- ===== src/LspShimCore/Framing/RoundTrip.antt =====
-- A frame that is sent is received as the value that was sent.
use mcp_tools.Prelude.{
  ℕ, suc, ◌≤◌, ◌<◌, ◌^◌, ◌≡◌, ◌≢◌, refl, ap, sym, ◌∙◌, true, false, inl, inr, Option, none, some,
  List, [], ◌∷◌, ◌++◌, arith, ltb, length, drop, All, All-append, Str, str, trim, trim_start,
  trim_end, is_whitespace, trim_end_matches, trim_end_matches-drop, trim_end_matches-keep,
  append_assoc, take-append, drop-append, length-append,
}
use mcp_tools.Prelude.Decimal.{
  decimal, parse_usize-decimal, IsDigit, IsDigit-decimal, decimal-ne-nil,
}
use mcp_tools.Prelude.Utf8.{from_utf8, from_utf8-ascii}
use mcp_tools.Prelude.Result.{Result, ok, err, ◌>>=◌, Result-cases}
use mcp_tools.LspShimCore.Framing.{
  unexpected_eof, isize_max, send_frame, read_line, is_line_end, header_length, read_headers,
  recv_frame,
}

read_line-crlf :
    (xs rest : List ℕ)
    → All (λ c. c ≢ 10) xs
    → read_line (xs ++ (13 ∷ 10 ∷ rest)) ≡ (xs ++ (13 ∷ 10 ∷ []), rest)
unfolding read_line
read_line-crlf [] rest h = refl
read_line-crlf (c ∷ xs) rest h = ground (arith, read_line-crlf xs rest h.1)

-- The characters of a header line that `decimal` ends.
abbrev IsHeader : ℕ → Type 0
IsHeader c = (32 ≤ c) × (c < 128)

abbrev pub header : ℕ → Str
header n = str "Content-Length: " ++ decimal n

digits-IsHeader : (s : Str) → All IsDigit s → All IsHeader s
digits-IsHeader [] h = tt
digits-IsHeader (c ∷ s) h = (omega arith, digits-IsHeader s h.1)

header-IsHeader : (n : ℕ) → All IsHeader (header n)
header-IsHeader n =
    All-append IsHeader (str "Content-Length: ") (decimal n) (omega arith)
      (digits-IsHeader (decimal n) (IsDigit-decimal n))

IsHeader-not_end : (s : Str) → All IsHeader s → All (λ c. is_line_end c ≡ false) s
IsHeader-not_end [] h = tt
IsHeader-not_end (c ∷ s) h = (ground arith, IsHeader-not_end s h.1)

digits-not_space : (s : Str) → All IsDigit s → All (λ c. is_whitespace c ≡ false) s
unfolding is_whitespace
digits-not_space [] d = tt
digits-not_space (c ∷ s) d = (ground arith, digits-not_space s d.1)

trim_start-digit : (c : ℕ) (s : Str) → IsDigit c → trim_start (32 ∷ c ∷ s) ≡ c ∷ s
unfolding trim_start
trim_start-digit c s d = ground arith

trim_end-digits : (c : ℕ) (s : Str) → All IsDigit (c ∷ s) → trim_end (32 ∷ c ∷ s) ≡ 32 ∷ c ∷ s
unfolding trim_end
trim_end-digits c s d =
    let kept : trim_end_matches is_whitespace (c ∷ s) ≡ c ∷ s =
      trim_end_matches-keep is_whitespace (c ∷ s) (digits-not_space (c ∷ s) d) in
    rw kept refl

trim-digits : (s : Str) → All IsDigit s → s ≢ [] → trim (32 ∷ s) ≡ s
unfolding trim
trim-digits [] d ne = absurd (ne refl)
trim-digits (c ∷ s) d ne = rw (trim_end-digits c s d) (trim_start-digit c s d.0)

header_length-header : (n : ℕ) → n < 2 ^ 64 → header_length none (header n) ≡ ok (some n)
unfolding header_length
header_length-header n h =
    rw (trim-digits (decimal n) (IsDigit-decimal n) (decimal-ne-nil n), parse_usize-decimal n h)

IsHeader-not_lf : (s : Str) → All IsHeader s → All (λ c. c ≢ 10) s
IsHeader-not_lf [] h = tt
IsHeader-not_lf (c ∷ s) h = (omega arith, IsHeader-not_lf s h.1)

IsHeader-ascii : (s : Str) → All IsHeader s → All (λ c. c < 128) s
IsHeader-ascii [] h = tt
IsHeader-ascii (c ∷ s) h = (omega arith, IsHeader-ascii s h.1)

crlf-end : All (λ c. is_line_end c ≡ true) (13 ∷ 10 ∷ [])
crlf-end = (refl, (refl, tt))

trimmed-line : (s : Str) → All IsHeader s → trim_end_matches is_line_end (s ++ (13 ∷ 10 ∷ [])) ≡ s
trimmed-line s h =
    trim_end_matches-drop is_line_end s (13 ∷ 10 ∷ []) crlf-end
    ∙ trim_end_matches-keep is_line_end s (IsHeader-not_end s h)

decoded-line :
    (s : Str) → All IsHeader s → from_utf8 (s ++ (13 ∷ 10 ∷ [])) ≡ some (s ++ (13 ∷ 10 ∷ []))
decoded-line s h =
    from_utf8-ascii (s ++ (13 ∷ 10 ∷ []))
      (All-append (λ c. c < 128) s (13 ∷ 10 ∷ []) (IsHeader-ascii s h) (omega arith))

-- A line of header characters, read with its line end.
read_headers-line :
    (rounds : ℕ) (so_far : Option ℕ) (c : ℕ) (s rest : List ℕ)
    → All IsHeader (c ∷ s)
    → read_headers (suc rounds) so_far ((c ∷ s) ++ (13 ∷ 10 ∷ rest))
      ≡ (do n ← header_length so_far (c ∷ s); read_headers rounds n rest)
unfolding read_headers
read_headers-line rounds so_far c s rest h =
    rw
      (
        read_line-crlf (c ∷ s) rest (IsHeader-not_lf (c ∷ s) h),
        decoded-line (c ∷ s) h,
        trimmed-line (c ∷ s) h,
      )
      refl

read_headers-blank :
    (rounds : ℕ) (so_far : Option ℕ) (rest : List ℕ)
    → read_headers (suc rounds) so_far (13 ∷ 10 ∷ rest) ≡ ok (so_far, rest)
unfolding read_headers read_line from_utf8 trim_end_matches
read_headers-blank rounds so_far rest = refl

-- The bytes of a frame, of which the header loop takes two lines.
abbrev pub framed : ℕ → List ℕ → List ℕ
framed n rest = header n ++ (13 ∷ 10 ∷ 13 ∷ 10 ∷ rest)

framed-headers :
    (n : ℕ) (rest : List ℕ)
    → n < 2 ^ 64
    → read_headers (suc (length (framed n rest))) none (framed n rest) ≡ ok (some n, rest)
framed-headers n rest h =
    let rounds = length (drop 1 (framed n rest)) in
    read_headers-line (suc rounds) none b'C' (drop 1 (header n)) (13 ∷ 10 ∷ rest)
      (header-IsHeader n)
    ∙ rw (header_length-header n h) (read_headers-blank rounds (some n) rest)

framed-append :
    (n : ℕ) (body rest : List ℕ)
    → (header n ++ (13 ∷ 10 ∷ 13 ∷ 10 ∷ body)) ++ rest ≡ framed n (body ++ rest)
framed-append n body rest = append_assoc (header n) (13 ∷ 10 ∷ 13 ∷ 10 ∷ body) rest

enough_rest : (body rest : List ℕ) → ltb (length (body ++ rest)) (length body) ≡ false
enough_rest body rest = ground (arith, length-append body rest)

fits_isize : (n : ℕ) → n ≤ isize_max → ltb isize_max n ≡ false
fits_isize n h = ground arith

module _ {Value : Type 0} (from_slice : List ℕ → Result Value Str)
    (to_vec : Value → Result (List ℕ) Str) where
  recv_frame-framed :
      (v : Value) (body rest : List ℕ)
      → from_slice body ≡ ok v
      → length body ≤ isize_max
      → recv_frame from_slice (framed (length body) (body ++ rest)) ≡ ok (v, rest)
  unfolding recv_frame
  recv_frame-framed v body rest e h =
      rw
        (
          framed-headers (length body) (body ++ rest) (omega arith),
          fits_isize (length body) h,
          enough_rest body rest,
          take-append body rest,
          drop-append body rest,
          e,
        )
        refl

  -- If a frame is sent whose body is no longer than the `isize::MAX` bytes that a `Vec` can hold, and the
  -- stream ends inside that body, with a byte or more of it missing, then what has come of the frame is
  -- received as an `UnexpectedEof` error.
  pub recv_frame-truncated :
      (v : Value) (cut missing : List ℕ)
      → to_vec v ≡ ok (cut ++ missing)
      → length (cut ++ missing) ≤ isize_max
      → missing ≢ []
      → (sent : List ℕ) × (send_frame to_vec v ≡ ok (sent ++ missing))
        × (recv_frame from_slice sent ≡ err unexpected_eof)
  unfolding send_frame recv_frame
  recv_frame-truncated v cut missing written fits lost =
      let n = length (cut ++ missing) in
      (
        framed n cut,
        rw written (ap ok (sym (framed-append n cut missing))),
        rw (framed-headers n cut (omega arith), fits_isize n fits, short cut missing lost) refl,
      )
    where
      short :
          (cut missing : List ℕ) → missing ≢ [] → ltb (length cut) (length (cut ++ missing)) ≡ true
      short cut [] lost = absurd (lost refl)
      short cut (c ∷ missing) lost = ground (arith, length-append cut (c ∷ missing))

  -- If serde reads what it writes, and no body is longer than the `isize::MAX` bytes that a `Vec` can
  -- hold, a frame that is sent is received as the value that was sent, and what follows it in the
  -- stream is left there.
  pub recv_frame-send_frame :
      (v : Value) (frame rest : List ℕ)
      → ((u : Value) (bytes : List ℕ)
          → to_vec u ≡ ok bytes
          → (from_slice bytes ≡ ok u) × (length bytes ≤ isize_max))
      → send_frame to_vec v ≡ ok frame
      → recv_frame from_slice (frame ++ rest) ≡ ok (v, rest)
  unfolding send_frame
  recv_frame-send_frame v frame rest serde sent = elim (Result-cases (to_vec v)) [
    | inl (body, e) ↦
        let s = serde v body e in
        let g : _ = rw e at sent in
        let f : frame ≡ header (length body) ++ (13 ∷ 10 ∷ 13 ∷ 10 ∷ body) = cc in
        ap (λ bytes. recv_frame from_slice (bytes ++ rest)) f
        ∙ (ap (recv_frame from_slice) (framed-append (length body) body rest)
            ∙ recv_frame-framed v body rest s.0 s.1)
    | inr (m, e) ↦ absurd (let g = rw e at sent in cc)
  ]
