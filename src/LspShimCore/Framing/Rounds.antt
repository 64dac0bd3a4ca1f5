-- ===== src/LspShimCore/Framing/Rounds.antt =====
-- The header loop of `recv_frame` ends.
use mcp_tools.Prelude.{
  ℕ, zero, suc, ◌≤◌, ◌<◌, ◌≡◌, ◌≢◌, Option, none, some, List, [], ◌∷◌, arith, is_empty, length,
  take, ltb, Str, trim_end_matches, strip_prefix, trim, Bool-cases, Option-cases, inl, inr,
}
use mcp_tools.Prelude.Decimal.{parse_usize}
use mcp_tools.Prelude.Utf8.{from_utf8}
use mcp_tools.Prelude.Result.{Result, err, Result-cases}
use mcp_tools.LspShimCore.Framing.{
  out_of_rounds, read_line, is_line_end, header_length, parse_length, content_length_prefix,
  read_headers, isize_max, received, recv_frame,
}

read_line-shorter : (c : ℕ) (input : List ℕ) → length (read_line (c ∷ input)).1 ≤ length input
unfolding read_line
read_line-shorter c [] = ground arith
read_line-shorter c (d ∷ input) = ground (arith, read_line-shorter d input)

parse_length-ends : (rest : Str) → parse_length rest ≢ err out_of_rounds
parse_length-ends rest = elim (Option-cases (parse_usize (trim rest))) [
  | inl bad ↦ rw bad (λ h. absurd cc)
  | inr (n, found) ↦ rw found (λ h. absurd cc)
]

header_length-ends :
    (so_far : Option ℕ) (line : Str) → header_length so_far line ≢ err out_of_rounds
unfolding header_length
header_length-ends so_far line = elim (Option-cases (strip_prefix content_length_prefix line)) [
  | inl other ↦ rw other (λ h. absurd cc)
  | inr (rest, found) ↦ elim (Result-cases (parse_length rest)) [
    | inl (n, e) ↦ rw (found, e) (λ h. absurd cc)
    | inr (e, failed) ↦
        rw (found, failed)
          (λ h. absurd (let g : e ≡ out_of_rounds = cc in parse_length-ends rest (rw g at failed)))
  ]
]

-- A round for each byte, and one for the end of the stream, are enough.
pub read_headers-ends :
    (rounds : ℕ) (so_far : Option ℕ) (input : List ℕ)
    → length input < rounds
    → read_headers rounds so_far input ≢ err out_of_rounds
unfolding read_headers
read_headers-ends zero so_far input h = absurd (omega arith)
read_headers-ends (suc rounds) so_far [] h = λ e. absurd cc
read_headers-ends (suc rounds) so_far (c ∷ input) h =
    let rest = (read_line (c ∷ input)).1 in
    let shorter = read_line-shorter c input in
    elim (Option-cases (from_utf8 (read_line (c ∷ input)).0)) [
      | inl bad ↦ rw bad (λ e. absurd cc)
      | inr (line, decoded) ↦ elim (Bool-cases (is_empty (trim_end_matches is_line_end line))) [
        | inl blank ↦ rw (decoded, blank) (λ e. absurd cc)
        | inr full ↦
            elim (Result-cases (header_length so_far (trim_end_matches is_line_end line))) [
              | inr (e, failed) ↦
                  rw (decoded, full, failed)
                    (λ same. absurd (
                      let g : e ≡ out_of_rounds = cc in
                      header_length-ends so_far (trim_end_matches is_line_end line)
                        (rw g at failed)))
              | inl (n, found) ↦
                  rw (decoded, full, found) (read_headers-ends rounds n rest (omega arith))
            ]
      ]
    ]

module _ {Value : Type 0} (from_slice : List ℕ → Result Value Str) where
  body-ends :
      (content_length : Option ℕ) (rest : List ℕ)
      → received from_slice content_length rest ≢ err out_of_rounds
  body-ends none rest = λ h. absurd cc
  body-ends (some n) rest = elim (Bool-cases (ltb isize_max n)) [
    | inl huge ↦ rw huge (λ h. absurd cc)
    | inr fits ↦ elim (Bool-cases (ltb (length rest) n)) [
      | inl short ↦ rw (fits, short) (λ h. absurd cc)
      | inr whole ↦ elim (Result-cases (from_slice (take n rest))) [
        | inl (v, e) ↦ rw (fits, whole, e) (λ h. absurd cc)
        | inr (m, e) ↦ rw (fits, whole, e) (λ h. absurd cc)
      ]
    ]
  ]

  -- Whatever the stream holds, `recv_frame` ends: its loop over the header lines gets to an empty line,
  -- to a header that it cannot read or to the end of the stream before the rounds that the model gives
  -- it are over, of which it has one more than there are bytes.
  pub recv_frame-ends : (input : List ℕ) → recv_frame from_slice input ≢ err out_of_rounds
  unfolding recv_frame
  recv_frame-ends input = elim (Result-cases (read_headers (suc (length input)) none input)) [
    | inl ((content_length, rest), e) ↦ rw e (body-ends content_length rest)
    | inr (e, failed) ↦ rw failed (λ h. absurd (
        let g : e ≡ out_of_rounds = cc in
        read_headers-ends (suc (length input)) none input (omega arith) (rw g at failed)))
  ]
