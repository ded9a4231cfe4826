-- ===== src/Bridge.antt =====
-- src/util/util_bridgecommand.h and .cpp, src/util/util_ipcchannel.h, src/util/util_bridge_state.h:
-- one end of the bridge, by its writer's channel and its static members. Commands are the numbers
-- of `Commands::D3D9Command`. An `int32_t` or `int64_t` is a word in two's complement. What
-- the other process does while a call waits comes as a list, one entry for each round.
pub mod Sync
pub mod Command
pub mod Wait
pub mod Timeout
pub mod Receive
use bridge_remix_mhfz.Base.{
  ℕ, ◌+◌, ◌-◌, ◌/◌, ◌%◌, ◌*◌, ◌^◌, List, Option, Bool, true, false, ltb, ◌==◌, not, ◌&&◌,
  if◌then◌else◌,
}
use bridge_remix_mhfz.Base.Words.{Arch, x86, x64, mul32, u32_mod}
use bridge_remix_mhfz.Buffer.{DataQueue}
use bridge_remix_mhfz.Atomic.{AtomicQueue}

-- `Header`
pub record Header : Type 0 where
  pub command : ℕ
  pub flags : ℕ
  pub data_offset : ℕ
  pub handle : ℕ

-- `BridgeState::ProcessState`
pub data ProcessState : Type 0 where
  not_init init handshaking running done_processing exited : ProcessState

-- `state >= ProcessState::DoneProcessing`
abbrev pub is_done : ProcessState → Bool
is_done ProcessState.done_processing = true
is_done ProcessState.exited = true
is_done _ = false

abbrev pub is_running : ProcessState → Bool
is_running ProcessState.running = true
is_running _ = false

-- `IpcChannel`: the two queues and the fields in shared memory that guard the data queue.
pub record Channel : Type 0 where
  pub commands : AtomicQueue Header
  pub data_queue : DataQueue
  pub server_data_pos : ℕ
  pub client_data_expected_pos : ℕ
  pub server_reset_pos_required : Bool
  pub cmd_in_progress : Bool

-- The static members of `Bridge<BridgeId>`, with `gbBridgeRunning`.
pub record Bridge : Type 0 where
  pub writer : Channel
  pub cur_batch_start_pos : ℕ
  pub cmd_counter : ℕ
  pub cmd_uid : ℕ
  pub bridge_running : Bool

-- -1, as an `int32_t` and as an `int64_t`
abbrev pub minus_one32 : ℕ
minus_one32 = 2 ^ 32 - 1

abbrev pub minus_one64 : ℕ
minus_one64 = 2 ^ 64 - 1

-- The order of `int32_t`, and of `int64_t`.
abbrev pub slt32 : ℕ → ℕ → Bool
slt32 a b = ltb ((a + 2 ^ 31) % 2 ^ 32) ((b + 2 ^ 31) % 2 ^ 32)

abbrev pub slt64 : ℕ → ℕ → Bool
slt64 a b = ltb ((a + 2 ^ 63) % 2 ^ 64) ((b + 2 ^ 63) % 2 ^ 64)

-- An `int32_t` as an `int64_t`, and as a `size_t`.
abbrev pub sign_extend : ℕ → ℕ
sign_extend w = if ltb w (2 ^ 31) then w else w + (2 ^ 64 - 2 ^ 32)

abbrev pub to_size : Arch → ℕ → ℕ
to_size x86 w = w
to_size x64 w = sign_extend w

-- `IpcChannel`'s constructor, at the writer.
unfoldable pub init_channel : AtomicQueue Header → DataQueue → Channel
init_channel commands data_queue = record {
  commands = commands;
  data_queue = data_queue;
  server_data_pos = minus_one64;
  client_data_expected_pos = minus_one64;
  server_reset_pos_required = false;
  cmd_in_progress = false;
}

-- `INFINITE`
abbrev pub infinite : ℕ
infinite = 2 ^ 32 - 1

-- `get_default_timeout`
unfoldable pub default_timeout : ℕ → ℕ → ℕ
default_timeout timeout retries =
    let default = mul32 timeout retries in
    if not (timeout == 0) && not (default / timeout == retries) then infinite else default
