-- ===== src/LspShimCore/Framing.antt =====
-- lsp-shim-core/src/framing.rs: the `Content-Length` framing of JSON-RPC messages. JSON values are a
-- parameter, with serde's reader and writer; a stream is the list of bytes that is still to be read.
pub mod RoundTrip
pub mod Rounds
use mcp_tools.Prelude.{
  ℕ, zero, suc, ◌+◌, ◌-◌, ◌^◌, Bool, true, false, not, ◌&&◌, Option, none, some, List, [], ◌∷◌,
  ◌++◌, ltb, ◌==◌, ◌||◌, if◌then◌else◌, is_empty, length, take, drop, Str, str, as_bytes,
  strip_prefix, cons_head, trim, trim_end_matches,
}
use mcp_tools.Prelude.Int.{ℤ, negsuc}
use mcp_tools.Prelude.Decimal.{decimal, parse_usize}
use mcp_tools.Prelude.Utf8.{from_utf8}
use mcp_tools.Prelude.Result.{Result, ok, err, ◌>>=◌, ◌>>◌, ensure, ok_or, map_err}

abbrev pub lsp_error_content_modified : ℤ
lsp_error_content_modified = negsuc 32800

abbrev pub lsp_error_server_cancelled : ℤ
lsp_error_server_cancelled = negsuc 32801

-- `io::ErrorKind`, as far as this module makes errors. Two more ends stand beside it: `panicked` is the
-- panic at a length that no allocation can have, and `out_of_rounds` is no end at all, a loop that has
-- gone on for all the rounds that it was given.
pub data IoError : Type 0 where
  unexpected_eof invalid_data other panicked out_of_rounds : IoError

pub data RpcOutcome (Value : Type 0) : Type 0 where
  result : Value → RpcOutcome Value
  error : (code : ℤ) → (message : Str) → (details : Option Value) → RpcOutcome Value

pub record RawError (Value : Type 0) : Type 0 where
  pub code : ℤ
  pub message : Str
  pub details : Option Value

-- What serde reads a response as: a missing field and a `null` are both `none`.
pub record RawResponse (Value : Type 0) : Type 0 where
  pub result : Option Value
  pub error : Option (RawError Value)

abbrev pub content_length_prefix : Str
content_length_prefix = str "Content-Length:"

module _ {Value : Type 0} where
  abbrev outcome_of : Value → RawResponse Value → RpcOutcome Value
  outcome_of null raw = elim raw.error [
    | some e ↦ RpcOutcome.error e.code e.message e.details
    | none ↦ elim raw.result [ some v ↦ RpcOutcome.result v | none ↦ RpcOutcome.result null ]
  ]

  unfoldable pub parse_response :
      Value → (List ℕ → Result (RawResponse Value) Str) → List ℕ → Result (RpcOutcome Value) IoError
  parse_response null from_slice body = do
    parsed ← map_err (λ _. invalid_data) (from_slice body)
    ok (outcome_of null parsed)

  -- `encode_frame` and `send_frame` write the same bytes, of a request and of a value, here to a
  -- writer that takes every byte.
  unfoldable pub send_frame : (Value → Result (List ℕ) Str) → Value → Result (List ℕ) IoError
  send_frame to_vec payload = do
    body ← map_err (λ _. other) (to_vec payload)
    ok (str "Content-Length: " ++ (decimal (length body) ++ (str "\r\n\r\n" ++ body)))

abbrev pub parse_length : Str → Result ℕ IoError
parse_length rest = ok_or (parse_usize (trim rest)) invalid_data

-- `headers.split("\r\n")`: the pieces between the line ends.
unfoldable pub split_crlf : Str → List Str
split_crlf [] = [] ∷ []
split_crlf (c ∷ []) = (c ∷ []) ∷ []
split_crlf (c ∷ d ∷ s) =
    let cut = [] ∷ split_crlf s in
    let kept = cons_head c (split_crlf (d ∷ s)) in if (c == 13) && (d == 10) then cut else kept

unfoldable pub find_content_length : List Str → Result ℕ IoError
unfolding strip_prefix parse_usize trim
find_content_length [] = err invalid_data
find_content_length (line ∷ lines) = elim (strip_prefix content_length_prefix line) [
  | some rest ↦ parse_length rest
  | none ↦ find_content_length lines
]

unfoldable pub parse_content_length : Str → Result ℕ IoError
unfolding split_crlf find_content_length
parse_content_length headers = find_content_length (split_crlf headers)

-- `read_line`: the bytes up to and with the next line feed, and those behind it.
unfoldable pub read_line : List ℕ → List ℕ × List ℕ
read_line [] = ([], [])
read_line (c ∷ input) =
    let (line, rest) = read_line input in if c == 10 then (c ∷ [], input) else (c ∷ line, rest)

abbrev is_line_end : ℕ → Bool
is_line_end c = (c == 13) || (c == 10)

-- The length so far, or the one that this header line gives.
unfoldable pub header_length : Option ℕ → Str → Result (Option ℕ) IoError
unfolding strip_prefix
header_length so_far trimmed = elim (strip_prefix content_length_prefix trimmed) [
  | none ↦ ok so_far
  | some rest ↦ (do n ← parse_length rest; ok (some n))
]

-- The loop over header lines, for so many rounds. Each round reads a byte at least.
unfoldable pub read_headers : ℕ → Option ℕ → List ℕ → Result (Option ℕ × List ℕ) IoError
read_headers zero content_length input = err out_of_rounds
read_headers (suc rounds) content_length [] = err unexpected_eof
read_headers (suc rounds) content_length (c ∷ input) = do
  let (line, rest) = read_line (c ∷ input)
  header_line ← ok_or (from_utf8 line) invalid_data
  let trimmed = trim_end_matches is_line_end header_line
  let more = (do n ← header_length content_length trimmed; read_headers rounds n rest)
  if is_empty trimmed then ok (content_length, rest) else more

-- `isize::MAX`
abbrev pub isize_max : ℕ
isize_max = 2 ^ 63 - 1

module _ {Value : Type 0} where
  -- What follows the headers. A buffer of the announced length is allocated before a byte of the body
  -- is read: above `isize_max` that panics, and up to it the memory is taken to be there.
  abbrev pub received :
      (List ℕ → Result Value Str) → Option ℕ → List ℕ → Result (Value × List ℕ) IoError
  received from_slice content_length rest = do
    n ← ok_or content_length invalid_data
    ensure (not (ltb isize_max n)) panicked
    ensure (not (ltb (length rest) n)) unexpected_eof
    value ← map_err (λ _. invalid_data) (from_slice (take n rest))
    ok (value, drop n rest)

  -- The value, and the bytes that are left in the stream.
  unfoldable pub recv_frame : (List ℕ → Result Value Str) → List ℕ → Result (Value × List ℕ) IoError
  recv_frame from_slice input = do
    (content_length, rest) ← read_headers (suc (length input)) none input
    received from_slice content_length rest
