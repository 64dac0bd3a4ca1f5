-- ===== src/Tests/Shim.antt =====
-- Runs of wtpool/src/cache.rs, lsp-cpp/src/queue.rs and lsp-shim-core/src/framing.rs.
use mcp_tools.Prelude.{
  ◌≤◌, str_eq_iff, ℕ, ◌≡◌, ◌≢◌, refl, Bool, true, false, List, [], ◌∷◌, ◌++◌, arith, if◌then◌else◌,
  length, Str, str, str_eq,
}
use mcp_tools.Prelude.Decimal.{decimal}
use mcp_tools.Prelude.Result.{Result, ok, err}
use mcp_tools.Wtpool.Cache.{TtlCache, with_ttl}
use mcp_tools.LspCpp.Queue.{QueueState, new, Event, request, finish, World, run, start}
use mcp_tools.LspCpp.Queue.Admission.{Inv, run-new-Inv}
use mcp_tools.LspShimCore.Framing.{
  unexpected_eof, out_of_rounds, isize_max, send_frame, recv_frame, parse_content_length,
}
use mcp_tools.LspShimCore.Framing.Rounds.{recv_frame-ends}
use mcp_tools.LspShimCore.Framing.RoundTrip.{recv_frame-send_frame, recv_frame-truncated}

abbrev no_git : Result ℕ Str
no_git = err (str "no git")

abbrev ten : TtlCache ℕ
ten = with_ttl 10

main-ne-docs : str "main" ≢ str "docs"
unfolding str_eq
main-ne-docs e = let same : false ≡ true = (str_eq_iff (str "main") (str "docs")).1 e in cc

abbrev two_slots : QueueState
two_slots = record { capacity = 2; in_flight = 0 }

abbrev events : List Event
events = request ∷ request ∷ request ∷ finish 0 ∷ request ∷ []

run-new-Inv_example : Inv 2 (run (start two_slots) events)
unfolding new
run-new-Inv_example = run-new-Inv 2 two_slots events refl

-- The third request is refused, and the fourth takes the place that the first one leaves.
after_events : (run (start two_slots) events).slots ≡ 2 ∷ 1 ∷ []
unfolding run
after_events = refl

abbrev full : World
full = record { state = record { capacity = 2; in_flight = 2 }; slots = 1 ∷ 0 ∷ []; next_slot = 2 }

full-Inv : Inv 2 full
full-Inv = record { fixed = refl; counted = refl; bounded = omega arith }

-- JSON with two values.
abbrev to_vec : Bool → Result (List ℕ) Str
to_vec true = ok (str "true")
to_vec false = ok (str "false")

abbrev from_slice : List ℕ → Result Bool Str
from_slice bytes =
    if str_eq bytes (str "true")
    then ok true
    else if str_eq bytes (str "false")
    then ok false
    else err (str "expected value")

serde :
    (u : Bool) (bytes : List ℕ)
    → to_vec u ≡ ok bytes
    → (from_slice bytes ≡ ok u) × (length bytes ≤ isize_max)
unfolding str_eq
serde true bytes e = let same : bytes ≡ str "true" = cc in rw same (refl, omega arith)
serde false bytes e = let same : bytes ≡ str "false" = cc in rw same (refl, omega arith)

abbrev frame : List ℕ
frame = str "Content-Length: 4\r\n\r\ntrue"

recv_frame-send_frame_example : recv_frame from_slice (frame ++ str "Cont") ≡ ok (true, str "Cont")
unfolding send_frame decimal
recv_frame-send_frame_example =
    recv_frame-send_frame from_slice to_vec true frame (str "Cont") serde refl

recv_frame-truncated_example :
    (sent : List ℕ) × (send_frame to_vec false ≡ ok (sent ++ str "e"))
    × (recv_frame from_slice sent ≡ err unexpected_eof)
recv_frame-truncated_example =
    recv_frame-truncated from_slice to_vec false (str "fals") (str "e") refl (omega arith) (λ e. cc)

two_headers : parse_content_length (str "Content-Type: json\r\nContent-Length: 42\r\n") ≡ ok 42
unfolding parse_content_length
two_headers = refl

recv_frame-ends_example : recv_frame from_slice frame ≢ err out_of_rounds
recv_frame-ends_example = recv_frame-ends from_slice frame
