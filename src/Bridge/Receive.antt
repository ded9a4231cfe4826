-- ===== src/Bridge/Receive.antt =====
-- The reader's side of the data queue (`get_data`, `copy_data`), and what the server does behind
-- every command in `ProcessDeviceCommandQueue` of src/server/main.cpp.
pub mod Release
use bridge_remix_mhfz.Base.{
  ℕ, ◌%◌, ◌^◌, List, Option, none, some, Bool, true, false, ltb, ◌==◌, not, ◌&&◌, ◌>>=◌,
  if◌then◌else◌,
}
use bridge_remix_mhfz.Base.Words.{Arch}
use bridge_remix_mhfz.Queue.{pull}
use bridge_remix_mhfz.Buffer.{DataQueue, pull_object, pull_and_copy}
use bridge_remix_mhfz.Bridge.{Channel, minus_one64, slt64}

-- Whether the reader has come round to the start of the memory.
abbrev pub pulled : Channel → DataQueue → Channel
pulled c q =
    let looped = c.server_reset_pos_required && ltb q.pos c.data_queue.pos in
    record c {
      data_queue = q;
      server_reset_pos_required = (if looped then false else c.server_reset_pos_required);
    }

unfoldable pub get_data : Arch → Channel → Option ℕ × Channel
get_data m c = let (word, q) = pull m c.data_queue in (word, pulled c q)

-- `get_data(void** obj)`
unfoldable pub get_data_object : Arch → Channel → Option (ℕ × Option ℕ × Channel)
get_data_object m c = do (size, ptr, q) ← pull_object m c.data_queue; some (size, ptr, pulled c q)

-- `copy_data`; a size that is not the type's is only logged.
unfoldable pub copy_data : Arch → ℕ → Channel → Option (ℕ × List ℕ × Channel)
copy_data m v_size c = do
  (size, bytes, q) ← pull_and_copy m v_size c.data_queue
  some (size, bytes, pulled c q)

-- Behind a command: the position is published, and a client that waits for it is released.
unfoldable pub finish_command : Channel → Bool × Channel
finish_command c =
    let c' = record c { server_data_pos = c.data_queue.pos } in
    if not (c'.client_data_expected_pos == minus_one64)
      && (slt64 c'.client_data_expected_pos c'.server_data_pos && not c'.server_reset_pos_required)
    then (true, record c' { client_data_expected_pos = minus_one64 })
    else (false, c')
