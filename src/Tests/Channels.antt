-- ===== src/Tests/Channels.antt =====
-- The message channel at concrete inputs.
use bridge_remix_mhfz.Base.{ℕ, ◌+◌, ◌≡◌, refl, [], none, some, true, false}
use bridge_remix_mhfz.Channel.{
  other, MessageChannel, find, register_handler, remove_handler, handler_of, on_message,
  new_channel, new_client, send, start_worker, init, handshake, new_server, get_message_id,
}
use bridge_remix_mhfz.Channel.Handlers.{
  register_handler-handler_of, remove_handler-register_handler,
}
use bridge_remix_mhfz.Channel.Handshake.{running, handshake-send}

-- names are given the numbers from 0xc000 on
abbrev register_window_message : ℕ → ℕ
register_window_message name = 49152 + name

abbrev channel : MessageChannel
channel = record { handshake_msg_id = 49153; msgs = []; handlers = [] }

abbrev with_handler : MessageChannel
with_handler = (register_handler register_window_message 5 (other 8) channel).1

register_handler-handler_of_example :
    ((register_handler register_window_message 5 (other 8) channel).0 ≡ true)
    × (handler_of 49157 with_handler ≡ some (other 8))
unfolding get_message_id
register_handler-handler_of_example =
    register_handler-handler_of register_window_message 5 (other 8) channel 49157

remove_handler-register_handler_example :
    (handler_of 49157 (remove_handler 5 with_handler) ≡ none)
    × (find 5 (remove_handler 5 with_handler).msgs ≡ none)
unfolding get_message_id
remove_handler-register_handler_example =
    remove_handler-register_handler register_window_message 5 (other 8) channel 49157 refl

handshake-send_example :
    (start_worker 70 (new_server (new_channel register_window_message 1))
      ≡ some ((true, true), running (new_channel register_window_message 1) 70 0))
    × (init 70 33 (new_server (new_channel register_window_message 1))
        ≡ some (true, running (new_channel register_window_message 1) 70 33))
    × (handshake (running (new_channel register_window_message 1) 70 33) ≡ some (70, (49153, 33)))
    × ((on_message (λ n w l. false) 49153 33 0 (new_client register_window_message 1)).0 ≡ true)
    × ((send register_window_message 5
          (on_message (λ n w l. false) 49153 33 0 (new_client register_window_message 1)).1).0
        ≡ some (33, 49157))
    × ((send register_window_message 5 (new_client register_window_message 1)).0 ≡ some (0, 49157))
handshake-send_example =
    handshake-send register_window_message (λ n w l. false) 1 70 33 5 true refl refl refl
