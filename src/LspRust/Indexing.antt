-- ===== src/LspRust/Indexing.antt =====
-- lsp-rust/src/lsp.rs: what `wait_for_indexing` has seen when it says that the index is settled.
use mcp_tools.Prelude.{
  ℕ, zero, suc, ◌≡◌, refl, Bool-cases, inl, inr, none, some, Option, Str, str_eq, str_eq_iff, subst,
  ltb,
}
use mcp_tools.Prelude.Json.{Json}
use mcp_tools.Prelude.Result.{Result, ok, err}
use mcp_tools.Prelude.Action.{behind}
use mcp_tools.LspRust.Error.{LspShimError}
use mcp_tools.LspRust.Client.{Os, Machine}
use mcp_tools.LspRust.Answers.{Serde}
use mcp_tools.LspRust.Session.{spawn}
use mcp_tools.LspRust.Requests.{
  sample, poll_within, on_sample, wait_for_indexing, settled_after, pause, poll,
}

module _ {W : Type 0} (os : Os W) (serde : Serde) where
  -- A sample was taken on this machine, with this text, and it left the next one.
  abbrev pub IsSample : Machine W → Str → Machine W → Type 0
  IsSample m digest m₁ =
      (value : Json) × (sample os serde m ≡ (ok value, m₁)) × (serde.show value ≡ digest)

  -- Three samples in a row, half a second apart, of which the first and the third have the text of
  -- the second, and the machine behind them.
  abbrev pub IsSettled : Machine W → Type 0
  IsSettled after =
      (m₁ : Machine W) × (m₂ : Machine W) × (m₃ : Machine W) × (digest : Str) × (IsSample m₁ digest
        m₂)
      × (IsSample (pause os serde 500 m₂) digest m₃)
      × (IsSample (pause os serde 500 m₃) digest after)

  -- What the state of the loop says of the samples before it.
  data Seen : Option Str → ℕ → Machine W → Type 0 where
    fresh : (m : Machine W) → Seen none 0 m
    changed :
        (digest : Str) (m₁ m₂ : Machine W)
        → IsSample m₁ digest m₂
        → Seen (some digest) 0 (pause os serde 500 m₂)
    same :
        (digest : Str) (m₁ m₂ m₃ : Machine W)
        → IsSample m₁ digest m₂
        → IsSample (pause os serde 500 m₂) digest m₃
        → Seen (some digest) 1 (pause os serde 500 m₃)

  -- What the wait has done where it gives this answer.
  abbrev IsReached : Result Json LspShimError × Machine W → Type 0
  IsReached (ok value, after) = (value ≡ settled_after 2) × IsSettled after
  IsReached (err e, after) = Unit {0}

  module _ (continue : Option Str → ℕ → Machine W → Result Json LspShimError × Machine W)
      (reached : (last : Option Str) (stable : ℕ) (m : Machine W)
        → Seen last stable m
        → IsReached (continue last stable m)) where
    on_sample-IsReached :
        (last : Option Str) (stable : ℕ) (m : Machine W)
        (out : Result Json LspShimError × Machine W)
        → Seen last stable m
        → sample os serde m ≡ out
        → IsReached (on_sample os serde continue last stable out)
    on_sample-IsReached last stable m (err e, m₁) seen h = tt
    on_sample-IsReached _ _ m (ok value, m₁) (fresh _) h =
        reached _ _ _ (changed (serde.show value) m m₁ (value, h, refl))
    on_sample-IsReached _ _ _ (ok value, m₃) (changed digest m₁ m₂ first) h =
        elim (Bool-cases (str_eq (serde.show value) digest)) [
          | inl equal ↦
              rw equal
                (reached _ _ _ (same digest m₁ m₂ m₃ first (value, h, (str_eq_iff _ _).0 equal)))
          | inr other ↦ rw other (reached _ _ _ (changed (serde.show value) _ m₃ (value, h, refl)))
        ]
    on_sample-IsReached _ _ _ (ok value, m₄) (same digest m₁ m₂ m₃ first second) h =
        elim (Bool-cases (str_eq (serde.show value) digest)) [
          | inl equal ↦
              rw equal
                (refl, (m₁, m₂, m₃, digest, first, second, (value, h, (str_eq_iff _ _).0 equal)))
          | inr other ↦ rw other (reached _ _ _ (changed (serde.show value) _ m₄ (value, h, refl)))
        ]

  poll_within-IsReached :
      (rounds deadline : ℕ) (last : Option Str) (stable : ℕ) (m : Machine W)
      → Seen last stable m
      → IsReached (poll_within os serde rounds deadline last stable m)
  unfolding poll_within
  poll_within-IsReached zero deadline last stable m seen = tt
  poll_within-IsReached (suc rounds) deadline last stable m seen =
      elim (Bool-cases (ltb (os.now_ns m.world) deadline)) [
        | inl early ↦ rw early (
            on_sample-IsReached (poll_within os serde rounds deadline)
              (poll_within-IsReached rounds deadline) last stable m (sample os serde m) seen refl)
        | inr late ↦ rw late tt
      ]

  poll-IsReached :
      (started : Result (Unit {0}) LspShimError) (m : Machine W)
      → IsReached (behind started (λ _. poll os serde) m)
  unfolding poll_within
  poll-IsReached (err e) m = tt
  poll-IsReached (ok done) m = poll_within-IsReached _ _ none 0 m (fresh m)

  -- The wait for the index says that the index is settled, after two samples that were equal to the one
  -- before, only behind three samples in a row with one text, half a second apart.
  pub wait_for_indexing-IsSettled :
      (process_id : ℕ) (version : Str) (m after : Machine W) (value : Json)
      → wait_for_indexing os serde process_id version m ≡ (ok value, after)
      → (value ≡ settled_after 2) × IsSettled after
  unfolding wait_for_indexing
  wait_for_indexing-IsSettled process_id version m after value h = subst IsReached h (
      poll-IsReached (spawn os serde process_id version m).0
        (spawn os serde process_id version m).1)
