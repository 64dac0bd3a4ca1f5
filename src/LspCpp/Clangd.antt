-- ===== src/LspCpp/Clangd.antt =====
-- lsp-cpp/src/clangd.rs: the handle of the clangd process, over an interface of the machine.
pub mod Launch
pub mod Answers
pub mod Request
pub mod Spawn
pub mod Queries
pub mod Shards
pub mod Index
pub mod Counts
pub mod Waits
pub mod Shutdown
pub mod StatusText
use mcp_tools.Prelude.{
  ℕ, ◌+◌, ◌-◌, ◌*◌, ◌/◌, ◌%◌, ◌^◌, ◌==◌, Bool, true, false, Option, none, some, List, ◌++◌, Str,
  str, if◌then◌else◌,
}
use mcp_tools.Prelude.Int.{ℤ, pos, negsuc}
use mcp_tools.Prelude.Json.{Json}
use mcp_tools.Prelude.Signed.{decimal_ℤ}
use mcp_tools.Prelude.Result.{Result, ok, err}
use mcp_tools.Prelude.Action.{Action}
use mcp_tools.LspCpp.Error.{ShimError, IoError, clangd_busy, clangd_exited}

-- `std::process::ExitStatus` on Unix
pub record ExitStatus : Type 0 where
  pub code : Option ℤ
  pub signal : Option ℤ

-- What the operating system does for the shim: files, processes by their number, the pipes of the
-- child, and the clock in nanoseconds. `send` and `recv` write and read one framed message.
pub record Os (W : Type 0) : Type 0 where
  pub env : Str → Option Str
  pub available_parallelism : Option ℕ
  pub exists : W → Str → Bool
  pub read_to_string : W → Str → Result Str IoError
  pub open_log : Str → Action W IoError (Unit {0})
  pub spawn_process : Str → List Str → Action W IoError ℕ
  pub try_wait : ℕ → Action W IoError (Option ExitStatus)
  pub kill_and_wait : ℕ → W → W
  pub sleep : ℕ → W → W
  pub send : Json → Action W ShimError (Unit {0})
  pub recv : Action W ShimError Json
  pub now_ns : W → ℕ

pub data IndexMode : Type 0 where
  narrow : IndexMode
  full : Str → IndexMode
  hybrid : Str → IndexMode

-- The pipes are there or they are not; a child is its process number.
pub record Clangd : Type 0 where
  pub project_root : Str
  pub clangd_bin : Str
  pub log_path : Str
  pub jobs : ℕ
  pub request_timeout_s : ℕ
  pub initialize_timeout_s : ℕ
  pub index_mode : IndexMode
  pub child : Option ℕ
  pub stdin : Bool
  pub stdout : Bool
  pub next_id : ℤ
  pub last_exit_status : Option Str

pub record Machine (W : Type 0) : Type 0 where
  pub clangd : Clangd
  pub world : W

abbrev pub signal_status : Option ℤ → Str
signal_status (some signal) = str "signal=" ++ decimal_ℤ signal
signal_status none = str "code=?"

abbrev pub code_status : Option ℤ → ExitStatus → Str
code_status (some code) status = str "code=" ++ decimal_ℤ code
code_status none status = signal_status status.signal

unfoldable pub format_exit_status : ExitStatus → Str
format_exit_status status = code_status status.code status

-- `AtomicI64::fetch_add`
abbrev next_i64 : ℤ → ℤ
next_i64 (pos n) = if n == 2 ^ 63 - 1 then negsuc (2 ^ 63 - 1) else pos (n + 1)
next_i64 (negsuc n) = if n == 0 then pos 0 else negsuc (n - 1)

unfoldable pub next_request_id : Clangd → ℤ × Clangd
next_request_id c = (c.next_id, record c { next_id = next_i64 c.next_id })

module _ {W : Type 0} (os : Os W) where
  -- The child is reaped, with the pipes that belong to it.
  abbrev reap : Result (Option ExitStatus) IoError → Machine W → Result Bool IoError × Machine W
  reap (err e) m = (err e, m)
  reap (ok none) m = (ok true, m)
  reap (ok (some status)) m = (
    ok false,
    record m {
      clangd = record (m.clangd) {
        last_exit_status = some (format_exit_status status);
        child = none;
        stdin = false;
        stdout = false;
      };
    },
  )

  abbrev probe : Option ℕ → Machine W → Result Bool IoError × Machine W
  probe none m = (ok false, m)
  probe (some child) m =
      let (waited, w) = os.try_wait child m.world in reap waited (record m { world = w })

  unfoldable pub is_alive : Action (Machine W) IoError Bool
  unfolding format_exit_status
  is_alive m = probe m.clangd.child m

  -- Whether the child is there, as far as one can tell: a failed probe says nothing.
  abbrev seems_alive : Result (Option ExitStatus) IoError → Bool
  seems_alive (ok (some status)) = false
  seems_alive _ = true

  abbrev still_there : Option ℕ → W → Bool × W
  still_there none w = (false, w)
  still_there (some child) w = let (waited, w₁) = os.try_wait child w in (seems_alive waited, w₁)

  unfoldable pub classify_timeout : Str → ℕ → Machine W → ShimError × Machine W
  classify_timeout method timeout_s m =
      let (alive, w) = still_there m.clangd.child m.world in
      (
        if alive
            then clangd_busy method timeout_s (str "") m.clangd.log_path
            else clangd_exited (str "exited_during_request") m.clangd.log_path,
        record m { world = w },
      )
