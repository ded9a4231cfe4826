-- ===== src/Channel/Handshake.antt =====
-- The handshake of the two ends of src/util/util_messagechannel.cpp.
use bridge_remix_mhfz.Base.{
  ℕ, ◌≡◌, refl, sym, ap, ◌∙◌, [], ◌∷◌, none, some, Bool, true, false, ◌==◌, ==_self, ==_iff,
  if◌then◌else◌, arith,
}
use bridge_remix_mhfz.Channel.{
  MessageChannel, MessageChannelServer, new_server, handshake_handler, known_or, get_message_id,
  register_handler, register_handler_id, handler_of, on_message, new_channel, new_client, send,
  start_worker, name_worker, init, can_send, handshake,
}

abbrev channel : ℕ → ℕ → MessageChannel
channel name msg = record {
  handshake_msg_id = msg;
  msgs = (name, msg) ∷ [];
  handlers = (msg, handshake_handler) ∷ [];
}

-- what a client's constructor leaves
new_client-eq :
    (register : ℕ → ℕ) (name : ℕ)
    → (register name == 0) ≡ false
    → new_client register name
      ≡ record { base = channel name (register name); server_thread_id = 0 }
unfolding new_client new_channel register_handler register_handler_id get_message_id
new_client-eq register name h = rw (h, ==_self name, h) refl

found_at :
    (register : ℕ → ℕ) (name other handshake_id : ℕ) (b : Bool)
    → (other == name) ≡ b
    → (known_or
        (if b then some (register name) else none)
        (register other)
        other
        (channel name (register name))).0
      ≡ register other
found_at register name other handshake_id true h = ap register (sym ((==_iff other name).0 h))
found_at register name other handshake_id false h = refl

send_from :
    (register : ℕ → ℕ) (name other thread : ℕ)
    → (register other == 0) ≡ false
    → (send register other
        (record { base = channel name (register name); server_thread_id = thread })).0
      ≡ some (thread, register other)
unfolding send get_message_id
send_from register name other thread h =
    rw (found_at register name other 0 (other == name) refl, h) refl

handled :
    (handle : ℕ → ℕ → ℕ → Bool) (name msg thread : ℕ)
    → on_message handle msg thread 0 (record { base = channel name msg; server_thread_id = 0 })
      ≡ (true, record { base = channel name msg; server_thread_id = thread })
unfolding on_message handler_of
handled handle name msg thread = rw (==_self msg) refl

swapped : (window : ℕ) → (window == 0) ≡ false → (0 == window) ≡ false
swapped window h = ground arith

-- a server's end when its worker runs, with the thread that has been assigned, or 0
abbrev pub running : MessageChannel → ℕ → ℕ → MessageChannelServer
running base window thread = record {
  base = base;
  client_window = window;
  worker_thread_id = thread;
  has_worker = true;
}

started :
    (base : MessageChannel) (window thread : ℕ)
    → (window == 0) ≡ false
    → (base.handshake_msg_id == 0) ≡ false
    → (start_worker window (new_server base) ≡ some ((true, true), running base window 0))
      × (init window thread (new_server base) ≡ some (true, running base window thread))
unfolding init start_worker name_worker
started base window thread h k =
    (rw (h, swapped window h, k) refl, rw (h, swapped window h, k) refl)

shaken :
    (base : MessageChannel) (window thread : ℕ)
    → (window == 0) ≡ false
    → handshake (running base window thread) ≡ some (window, (base.handshake_msg_id, thread))
unfolding handshake can_send
shaken base window thread h = rw h refl

registered :
    (register : ℕ → ℕ) (name : ℕ) → (new_channel register name).handshake_msg_id ≡ register name
unfolding new_channel get_message_id
registered register name = refl

-- The ends of a channel with the same name, which is given the same number in both processes and
-- not 0, and a window: `init` starts the worker, assigns its thread and succeeds. The worker reads the
-- thread when it shakes hands, before the assignment, where it is 0, or behind it. In both cases it
-- sends what it reads to the window in the channel's message, and when the client's window gives this
-- message to the client, the client handles it and from then on posts every message that has a number
-- to this thread: to the worker only where the assignment came first. Before the message it posts to
-- no thread.
pub handshake-send :
    (register_window_message : ℕ → ℕ) (handle : ℕ → ℕ → ℕ → Bool)
    (name window thread other_name : ℕ) (is_assigned : Bool)
    → let msg = register_window_message name in
      let other_msg = register_window_message other_name in
      let base = new_channel register_window_message name in
      let client = new_client register_window_message name in
      let seen = if is_assigned then thread else 0 in
      (msg == 0) ≡ false
      → (other_msg == 0) ≡ false
      → (window == 0) ≡ false
      → (start_worker window (new_server base) ≡ some ((true, true), running base window 0))
        × (init window thread (new_server base) ≡ some (true, running base window thread))
        × (handshake (running base window seen) ≡ some (window, (msg, seen)))
        × ((on_message handle msg seen 0 client).0 ≡ true)
        × ((send register_window_message other_name (on_message handle msg seen 0 client).1).0
            ≡ some (seen, other_msg))
        × ((send register_window_message other_name client).0 ≡ some (0, other_msg))
handshake-send register handle name window thread other_name is_assigned h k l =
    let base = new_channel register name in
    let same = registered register name in
    let ready = started base window thread l (rw same h) in
    let client = new_client-eq register name h in
    let seen = if is_assigned then thread else 0 in
    let message =
      ap (on_message handle (register name) seen 0) client
      ∙ handled handle name (register name) seen in
    (
      ready.0,
      ready.1,
      shaken base window seen l ∙ ap (λ msg. some (window, (msg, seen))) same,
      ap (λ r. r.0) message,
      ap (λ r. (send register other_name r.1).0) message
          ∙ send_from register name other_name seen k,
      ap (λ c. (send register other_name c).0) client ∙ send_from register name other_name 0 k,
    )
