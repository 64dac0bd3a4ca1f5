-- ===== src/LspRust/Retries.antt =====
-- lsp-rust/src/lsp.rs: what `request_with_retry` comes to, over the requests that it makes.
use mcp_tools.Prelude.{
  ℕ, zero, suc, ◌≡◌, refl, Bool-cases, inl, inr, none, some, Option, Str, ◌<◌, arith, ap, subst,
  ◌∙◌, if◌then◌else◌,
}
use mcp_tools.Prelude.Json.{Json}
use mcp_tools.Prelude.Result.{Result, ok, err}
use mcp_tools.LspRust.Error.{LspShimError, lsp, timeout, protocol, io, json, internal}
use mcp_tools.LspRust.Client.{Os, Machine}
use mcp_tools.LspRust.Answers.{Serde}
use mcp_tools.LspRust.Session.{request_once, spawn}
use mcp_tools.LspRust.Requests.{
  attempts, request_with_retry, is_transient_code, transient_error, pause, pause_unless_last,
  after_attempt,
}

-- The message with which the server says that the request may be made once more.
abbrev pub refusal : Result Json LspShimError → Option Str
refusal (err (lsp code message retry_after_ms)) =
    if is_transient_code code then some message else none
refusal _ = none

module _ {W : Type 0} (os : Os W) (serde : Serde) (method : Str) (params : Json) where
  abbrev pub request : Machine W → Result Json LspShimError × Machine W
  request m = request_once os serde method params m

  -- The machine at its `k`-th further request, half a second behind the last one.
  abbrev pub before : ℕ → Machine W → Machine W
  before zero m = m
  before (suc k) m = before k (pause os serde 500 (request m).1)

  abbrev pub IsRefused : Machine W → Type 0
  IsRefused m = (message : Str) × (refusal (request m).0 ≡ some message)

  -- With `n` requests at most: the first answer that is no refusal is the result, or the last of `n`
  -- refusals is, with the advice to come back in half a second.
  pub data Outcome (n : ℕ) (m : Machine W) : Result Json LspShimError × Machine W → Type 0 where
    settled :
        (k : ℕ)
        → k < n
        → ((j : ℕ) → j < k → IsRefused (before j m))
        → refusal (request (before k m)).0 ≡ none
        → Outcome n m (request (before k m))
    gave_up :
        (k : ℕ)
        → n ≡ suc k
        → ((j : ℕ) → j < k → IsRefused (before j m))
        → (message : Str) → refusal (request (before k m)).0 ≡ some message
        → Outcome n m (err (transient_error message), (request (before k m)).1)

  before-IsRefused :
      (m : Machine W)
      → IsRefused m
      → (k : ℕ) → ((j : ℕ) → j < k → IsRefused (before j (pause os serde 500 (request m).1)))
      → (j : ℕ) → j < suc k
      → IsRefused (before j m)
  before-IsRefused m first k rest zero h = first
  before-IsRefused m first k rest (suc j) h = rest j (omega (arith, h))

  again :
      (n : ℕ) (m : Machine W) (out : Result Json LspShimError × Machine W)
      → IsRefused m
      → Outcome n (pause os serde 500 (request m).1) out
      → Outcome (suc n) m out
  again n m _ first (settled k h rest final) =
      settled (suc k) (omega (arith, h)) (before-IsRefused m first k rest) final
  again n m _ first (gave_up k h rest message last) =
      gave_up (suc k) (ap suc h) (before-IsRefused m first k rest) message last

  none_before : (m : Machine W) (j : ℕ) → j < 0 → IsRefused (before j m)
  none_before m j h = ground (arith, h)

  -- An answer that is no refusal settles the matter.
  settled_now :
      (left : ℕ) (m : Machine W) (out : Result Json LspShimError × Machine W)
      → request m ≡ out
      → refusal out.0 ≡ none
      → Outcome (suc left) m out
  settled_now left m out h final =
      subst (Outcome (suc left) m) h
        (settled 0 (omega arith) (none_before m) (ap (λ o. refusal o.0) h ∙ final))

  -- What is to be shown where an attempt is refused, with `retry` behind it.
  abbrev Retried :
      ℕ
      → Machine W
      → (Option LspShimError → Machine W → Result Json LspShimError × Machine W)
      → Type 0
  Retried left m retry =
      (message : Str)
      → refusal (request m).0 ≡ some message
      → Outcome (suc left) m
          (retry (some (transient_error message)) (pause_unless_last os serde left (request m).1))

  after_attempt-Outcome :
      (left : ℕ) (m : Machine W)
      (retry : Option LspShimError → Machine W → Result Json LspShimError × Machine W)
      → Retried left m retry
      → (out : Result Json LspShimError × Machine W) → request m ≡ out
      → Outcome (suc left) m (after_attempt os serde left retry out)
  after_attempt-Outcome left m retry works (err (lsp code message retry_after_ms), m₁) h =
      elim (Bool-cases (is_transient_code code)) [
        | inl asked ↦ rw asked (
            subst
              (λ (out : Result Json LspShimError × Machine W).
                Outcome (suc left) m
                  (retry (some (transient_error message)) (pause_unless_last os serde left out.1)))
              h (works message (ap (λ o. refusal o.0) h ∙ rw asked refl)))
        | inr other ↦ rw other (settled_now left m _ h (rw other refl))
      ]
  after_attempt-Outcome left m retry works (ok value, m₁) h = settled_now left m _ h refl
  after_attempt-Outcome left m retry works (err (LspShimError.spawn b e), m₁) h =
      settled_now left m _ h refl
  after_attempt-Outcome left m retry works (err (timeout a b c), m₁) h = settled_now left m _ h refl
  after_attempt-Outcome left m retry works (err (protocol e), m₁) h = settled_now left m _ h refl
  after_attempt-Outcome left m retry works (err (io e), m₁) h = settled_now left m _ h refl
  after_attempt-Outcome left m retry works (err (json e), m₁) h = settled_now left m _ h refl
  after_attempt-Outcome left m retry works (err (internal e), m₁) h = settled_now left m _ h refl

  attempts-Outcome :
      (left : ℕ) (last : Option LspShimError) (m : Machine W)
      → Outcome (suc left) m (attempts os serde (suc left) method params last m)
  unfolding attempts
  attempts-Outcome zero last m =
      after_attempt-Outcome zero m (attempts os serde zero method params)
        (λ message refused. gave_up 0 refl (none_before m) message refused) (request m) refl
  attempts-Outcome (suc left) last m =
      after_attempt-Outcome (suc left) m (attempts os serde (suc left) method params)
        (λ message refused.
          again (suc left) m _ (message, refused)
            (attempts-Outcome left (some (transient_error message))
              (pause os serde 500 (request m).1)))
        (request m) refl

  -- A request to a client that is there, or that starts, is made three times at most, half a second
  -- apart: the first answer that is not `ContentModified` or `ServerCancelled` is the result, an error
  -- among them; the third refusal becomes an error that advises the caller to come back in 500 ms.
  pub request_with_retry-Outcome :
      (process_id : ℕ) (version : Str) (m m₁ : Machine W)
      → spawn os serde process_id version m ≡ (ok tt, m₁)
      → Outcome 3 m₁ (request_with_retry os serde process_id version method params m)
  unfolding request_with_retry
  request_with_retry-Outcome process_id version m m₁ h = rw h (attempts-Outcome 2 none m₁)
