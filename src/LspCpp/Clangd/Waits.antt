-- ===== src/LspCpp/Clangd/Waits.antt =====
-- The wait for clangd's answer ends: it is over at the deadline, and each message takes time.
use mcp_tools.Prelude.{ℕ, zero, suc, ◌+◌, ◌<◌, ◌≡◌, refl, Bool-cases, inl, inr, arith, ltb}
use mcp_tools.Prelude.Int.{ℤ}
use mcp_tools.Prelude.Json.{Json}
use mcp_tools.Prelude.Result.{Result, ok, err}
use mcp_tools.LspCpp.Error.{ShimError}
use mcp_tools.LspCpp.Clangd.{Os}
use mcp_tools.LspCpp.Clangd.Request.{Awaited, await_within, await, on_message, same_id, id_of}

module _ {W : Type 0} (os : Os W) (failure : Json → ShimError) (id : ℤ) where
  on_message-same :
      (deadline : ℕ) (rest₁ rest₂ : W → Awaited × W) (r : Result Json ShimError × W)
      → rest₁ r.1 ≡ rest₂ r.1
      → on_message os failure id rest₁ r ≡ on_message os failure id rest₂ r
  on_message-same deadline rest₁ rest₂ (err e, w) h = refl
  on_message-same deadline rest₁ rest₂ (ok value, w) h =
      elim (Bool-cases (same_id id (id_of value))) [
        | inl own ↦ rw own refl
        | inr other ↦ rw other h
      ]

  rounds_same :
      (n k deadline : ℕ) (w : W)
      → ((v : W) → os.now_ns v < os.now_ns (os.recv v).1)
      → deadline < os.now_ns w + n
      → deadline < os.now_ns w + k
      → await_within os n failure id deadline w ≡ await_within os k failure id deadline w
  unfolding await_within
  rounds_same zero zero deadline w f hn hk = refl
  rounds_same zero (suc k) deadline w f hn hk = ground arith
  rounds_same (suc n) zero deadline w f hn hk = ground arith
  rounds_same (suc n) (suc k) deadline w f hn hk = elim (Bool-cases (ltb deadline (os.now_ns w))) [
    | inl over ↦ rw over refl
    | inr early ↦ rw early (
        on_message-same deadline _ _ (os.recv w) (
          rounds_same n k deadline (os.recv w).1 f (omega (arith, f w, hn))
            (omega (arith, f w, hk))))
  ]

  -- Where each message that is read takes a nanosecond at least, the rounds that a wait is given are
  -- enough: it does the same with any larger number of them, so it ends by an answer, by an error or at
  -- the deadline, as the loop of the program does.
  pub await-rounds :
      (timeout extra : ℕ) (w : W)
      → ((v : W) → os.now_ns v < os.now_ns (os.recv v).1)
      → await os failure id timeout w
        ≡ await_within os (timeout + 2 + extra) failure id (os.now_ns w + timeout) w
  unfolding await
  await-rounds timeout extra w f = rounds_same _ _ _ w f (omega arith) (omega arith)
