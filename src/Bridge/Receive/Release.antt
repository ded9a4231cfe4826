-- ===== src/Bridge/Receive/Release.antt =====
-- When the server releases a client that waits in `syncDataQueue`.
use bridge_remix_mhfz.Base.{ℕ, ◌^◌, ◌≤◌, ◌<◌, ◌≡◌, ◌≢◌, ◌↔◌, true, false, arith}
use bridge_remix_mhfz.Base.Words.{sub32}
use bridge_remix_mhfz.Bridge.{Channel, sign_extend}
use bridge_remix_mhfz.Bridge.Receive.{finish_command}

-- With positions below 2^31, a client whose batch started at `start` is released by just the
-- command behind which the server has reached the start and has no lap to complete, but never if
-- the batch started at position 0: what the client stores there is the value for no condition.
pub finish_command-releases :
    (c : Channel) (start : ℕ)
    → start < 2 ^ 31
    → c.data_queue.pos < 2 ^ 31
    → c.client_data_expected_pos ≡ sign_extend (sub32 start 1)
    → ((finish_command c).0 ≡ true)
      ↔ ((start ≢ 0) × (start ≤ c.data_queue.pos) × (c.server_reset_pos_required ≡ false))
unfolding finish_command
finish_command-releases c start h k e = ground arith
