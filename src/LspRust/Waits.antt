-- ===== src/LspRust/Waits.antt =====
-- lsp-rust/src/lsp.rs: the rounds that the waits are given are enough.
use mcp_tools.Prelude.{
  ℕ, zero, suc, ◌+◌, ◌*◌, ◌≤◌, ◌<◌, ◌≡◌, refl, Bool-cases, inl, inr, arith, ltb, leb, Option, none,
  some, Str, str,
}
use mcp_tools.Prelude.Json.{Json, get_u64}
use mcp_tools.Prelude.Result.{Result, ok, err}
use mcp_tools.Prelude.Action.{Action}
use mcp_tools.LspCpp.Supervisor.{from_secs}
use mcp_tools.LspRust.Error.{LspShimError}
use mcp_tools.LspRust.Client.{Os, Machine}
use mcp_tools.LspRust.Answers.{Serde}
use mcp_tools.LspRust.Session.{Awaited, is_id, on_message, await, await_within}
use mcp_tools.LspRust.Requests.{sample, poll, poll_within, on_sample, pause, is_last}

module _ {W : Type 0} (os : Os W) (serde : Serde) where
  abbrev Continue : Type 0
  Continue = Option Str → ℕ → Machine W → Result Json LspShimError × Machine W

  on_sample-same :
      (c₁ c₂ : Continue) (last : Option Str) (stable : ℕ)
      (out : Result Json LspShimError × Machine W)
      → ((l : Option Str) (s : ℕ)
          → c₁ l s (pause os serde 500 out.1) ≡ c₂ l s (pause os serde 500 out.1))
      → on_sample os serde c₁ last stable out ≡ on_sample os serde c₂ last stable out
  on_sample-same c₁ c₂ last stable (err e, m) same = refl
  on_sample-same c₁ c₂ last stable (ok value, m) same =
      elim (Bool-cases (is_last last (serde.show value))) [
        | inr changed ↦ rw changed (same (some (serde.show value)) 0)
        | inl equal ↦ rw equal (elim (Bool-cases (leb 2 (stable + 1))) [
          | inl settled ↦ rw settled refl
          | inr early ↦ rw early (same last (stable + 1))
        ])
      ]

  module _
      (takes_time : (v : Machine W)
        → os.now_ns v.world + 500_000_000
          ≤ os.now_ns (pause os serde 500 (sample os serde v).1).world) where
    poll_within-same :
        (n k deadline : ℕ) (last : Option Str) (stable : ℕ) (m : Machine W)
        → deadline ≤ os.now_ns m.world + n * 500_000_000
        → deadline ≤ os.now_ns m.world + k * 500_000_000
        → poll_within os serde n deadline last stable m
          ≡ poll_within os serde k deadline last stable m
    unfolding poll_within
    poll_within-same zero zero deadline last stable m hn hk = refl
    poll_within-same zero (suc k) deadline last stable m hn hk =
        elim (Bool-cases (ltb (os.now_ns m.world) deadline)) [
          | inl early ↦ ground arith
          | inr late ↦ rw late refl
        ]
    poll_within-same (suc n) zero deadline last stable m hn hk =
        elim (Bool-cases (ltb (os.now_ns m.world) deadline)) [
          | inl early ↦ ground arith
          | inr late ↦ rw late refl
        ]
    poll_within-same (suc n) (suc k) deadline last stable m hn hk =
        elim (Bool-cases (ltb (os.now_ns m.world) deadline)) [
          | inl early ↦ rw early (
              on_sample-same (poll_within os serde n deadline) (poll_within os serde k deadline)
                last stable (sample os serde m)
                (λ l s.
                  poll_within-same n k deadline l s (pause os serde 500 (sample os serde m).1)
                    (omega (arith, takes_time m, hn)) (omega (arith, takes_time m, hk))))
          | inr late ↦ rw late refl
        ]

    -- Where a round takes half a second at least, the rounds that the wait for the index is given are
    -- enough: with any larger number of them it does the same, so it ends as the program's loop does.
    pub poll-rounds :
        (extra : ℕ) (m : Machine W)
        → poll os serde m
          ≡ poll_within os serde
              (m.client.timeout_s * 2 + 1 + extra)
              (os.now_ns m.world + from_secs m.client.timeout_s)
              none
              0
              m
    poll-rounds extra m = poll_within-same _ _ _ none 0 m (omega arith) (omega arith)

  module _ (id : ℕ) (read : Json → Result Json LspShimError) (receive : Action W LspShimError Json)
      (takes_time : (v : W) → os.now_ns v < os.now_ns (receive v).1) where
    on_message-same :
        (rest₁ rest₂ : W → Awaited × W) (r : Result Json LspShimError × W)
        → rest₁ r.1 ≡ rest₂ r.1
        → on_message os serde id read rest₁ r ≡ on_message os serde id read rest₂ r
    on_message-same rest₁ rest₂ (err e, w) h = refl
    on_message-same rest₁ rest₂ (ok value, w) h =
        elim (Bool-cases (is_id id (get_u64 (str "id") value))) [
          | inl own ↦ rw own refl
          | inr other ↦ rw other h
        ]

    await_within-same :
        (n k deadline : ℕ) (w : W)
        → deadline < os.now_ns w + n
        → deadline < os.now_ns w + k
        → await_within os serde n id read receive deadline w
          ≡ await_within os serde k id read receive deadline w
    unfolding await_within
    await_within-same zero zero deadline w hn hk = refl
    await_within-same zero (suc k) deadline w hn hk = ground arith
    await_within-same (suc n) zero deadline w hn hk = ground arith
    await_within-same (suc n) (suc k) deadline w hn hk =
        elim (Bool-cases (ltb deadline (os.now_ns w))) [
          | inl over ↦ rw over refl
          | inr early ↦ rw early (
              on_message-same (await_within os serde n id read receive deadline)
                (await_within os serde k id read receive deadline) (receive w)
                (await_within-same n k deadline (receive w).1 (omega (arith, takes_time w, hn))
                  (omega (arith, takes_time w, hk))))
        ]

    -- Where each message that is read takes a nanosecond at least, the rounds that a wait for an answer
    -- is given are enough: with any larger number of them it does the same.
    pub await-rounds :
        (timeout_ns extra : ℕ) (w : W)
        → await os serde id read receive timeout_ns w
          ≡ await_within os serde
              (timeout_ns + 2 + extra)
              id
              read
              receive
              (os.now_ns w + timeout_ns)
              w
    unfolding await
    await-rounds timeout_ns extra w = await_within-same _ _ _ w (omega arith) (omega arith)
