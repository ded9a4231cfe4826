-- ===== src/Channel.antt =====
-- src/util/util_messagechannel.h and .cpp: the two ends of a channel of window messages. A name, a
-- window and a thread are numbers, 0 for none. The functions of the operating system are arguments,
-- and so is what a handler does; the mutex makes the calls of one end follow one another.
pub mod Handlers
pub mod Handshake
use bridge_remix_mhfz.Base.{
  ℕ, List, [], ◌∷◌, Option, none, some, Bool, true, false, not, ◌&&◌, ◌==◌, if◌then◌else◌,
}

-- The handler that a client's constructor registers, and others, by number
pub data Handler : Type 0 where
  handshake_handler : Handler
  other : ℕ → Handler

pub record MessageChannel : Type 0 where
  pub handshake_msg_id : ℕ
  pub msgs : List (ℕ × ℕ)
  pub handlers : List (ℕ × Handler)

-- `std::unordered_map`: find, erase and assignment to an entry
abbrev pub find : {A : Type 0} → ℕ → List (ℕ × A) → Option A
find key [] = none
find key (entry ∷ map) = let rest = find key map in if key == entry.0 then some entry.1 else rest

abbrev pub erase : {A : Type 0} → ℕ → List (ℕ × A) → List (ℕ × A)
erase key [] = []
erase key (entry ∷ map) = let rest = erase key map in if key == entry.0 then rest else entry ∷ rest

abbrev pub put : {A : Type 0} → ℕ → A → List (ℕ × A) → List (ℕ × A)
put key value map = (key, value) ∷ erase key map

abbrev known_or : Option ℕ → ℕ → ℕ → MessageChannel → ℕ × MessageChannel
known_or (some msg) registered name c = (msg, c)
known_or none registered name c =
    (registered, if registered == 0 then c else record c { msgs = put name registered c.msgs })

-- `register_window_message` returns 0 where it fails.
unfoldable pub get_message_id : (ℕ → ℕ) → ℕ → MessageChannel → ℕ × MessageChannel
get_message_id register_window_message name c =
    known_or (find name c.msgs) (register_window_message name) name c

unfoldable pub register_handler_id : ℕ → Handler → MessageChannel → Bool × MessageChannel
register_handler_id msg handler c =
    (not (msg == 0), if msg == 0 then c else record c { handlers = put msg handler c.handlers })

unfoldable pub register_handler : (ℕ → ℕ) → ℕ → Handler → MessageChannel → Bool × MessageChannel
unfolding get_message_id register_handler_id
register_handler register_window_message name handler c =
    let found = get_message_id register_window_message name c in
    register_handler_id found.0 handler found.1

-- `m_msgs[msgName]`, which is 0 where the name is missing
abbrev id_or_zero : Option ℕ → ℕ
id_or_zero (some msg) = msg
id_or_zero none = 0

unfoldable pub remove_handler : ℕ → MessageChannel → MessageChannel
remove_handler name c = record c {
  handlers = erase (id_or_zero (find name c.msgs)) c.handlers;
  msgs = erase name c.msgs;
}

unfoldable pub remove_handler_id : ℕ → MessageChannel → MessageChannel
remove_handler_id msg c = record c { handlers = erase msg c.handlers }

-- The handler that `onMessage` calls
unfoldable pub handler_of : ℕ → MessageChannel → Option Handler
handler_of msg c = find msg c.handlers

pub record MessageChannelClient : Type 0 where
  pub base : MessageChannel
  pub server_thread_id : ℕ

abbrev call :
    (ℕ → ℕ → ℕ → Bool) → Option Handler → ℕ → ℕ → MessageChannelClient → Bool × MessageChannelClient
call handle none w_param l_param c = (false, c)
call handle (some handshake_handler) w_param l_param c =
    (true, record c { server_thread_id = w_param })
call handle (some (other n)) w_param l_param c = (handle n w_param l_param, c)

unfoldable pub on_message :
    (ℕ → ℕ → ℕ → Bool) → ℕ → ℕ → ℕ → MessageChannelClient → Bool × MessageChannelClient
unfolding handler_of
on_message handle msg w_param l_param c = call handle (handler_of msg c.base) w_param l_param c

-- The constructors
unfoldable pub new_channel : (ℕ → ℕ) → ℕ → MessageChannel
unfolding get_message_id
new_channel register_window_message name =
    let found =
      get_message_id register_window_message name
        (record { handshake_msg_id = 0; msgs = []; handlers = [] }) in
    record found.1 { handshake_msg_id = found.0 }

unfoldable pub new_client : (ℕ → ℕ) → ℕ → MessageChannelClient
unfolding new_channel register_handler
new_client register_window_message name = record {
  base =
      (register_handler register_window_message name handshake_handler
        (new_channel register_window_message name)).1;
  server_thread_id = 0;
}

-- What `PostThreadMessage` is called with: the thread and the message
unfoldable pub send : (ℕ → ℕ) → ℕ → MessageChannelClient → Option (ℕ × ℕ) × MessageChannelClient
unfolding get_message_id
send register_window_message name c =
    let found = get_message_id register_window_message name c.base in
    (if found.0 == 0 then none else some (c.server_thread_id, found.0), record c { base = found.1 })

pub record MessageChannelServer : Type 0 where
  pub base : MessageChannel
  pub client_window : ℕ
  pub worker_thread_id : ℕ
  pub has_worker : Bool

abbrev pub new_server : MessageChannel → MessageChannelServer
new_server base = record {
  base = base;
  client_window = 0;
  worker_thread_id = 0;
  has_worker = false;
}

-- `init` up to the start of the worker, which runs from then on; it is told by the result whether
-- a worker was started. Assigning to `m_worker` ends the process where it has a thread already.
unfoldable pub start_worker :
    ℕ → MessageChannelServer → Option ((Bool × Bool) × MessageChannelServer)
start_worker window s =
    let start : Option ((Bool × Bool) × MessageChannelServer) =
      if s.has_worker
      then none
      else some ((true, true), record s { client_window = window; has_worker = true }) in
    if window == 0
    then start
    else if s.client_window == window
    then some ((true, false), s)
    else if s.base.handshake_msg_id == 0
    then some ((false, false), s)
    else start

-- `m_workerThreadId` is assigned behind it.
unfoldable pub name_worker : Bool → ℕ → MessageChannelServer → MessageChannelServer
name_worker is_started thread s = if is_started then record s { worker_thread_id = thread } else s

-- `init`, where `thread` is the worker that is started
abbrev named :
    ℕ → Option ((Bool × Bool) × MessageChannelServer) → Option (Bool × MessageChannelServer)
named thread none = none
named thread (some (result, s)) = some (result.0, name_worker result.1 thread s)

unfoldable pub init : ℕ → ℕ → MessageChannelServer → Option (Bool × MessageChannelServer)
unfolding start_worker name_worker
init window thread s = named thread (start_worker window s)

unfoldable pub can_send : MessageChannelServer → Bool
can_send s = not (s.client_window == 0)

-- `SendMessageTimeout` of the handshake, which the worker calls: the window, the message and its
-- first parameter. The worker reads the server's members without the mutex, at any time after its start.
unfoldable pub handshake : MessageChannelServer → Option (ℕ × (ℕ × ℕ))
unfolding can_send
handshake s =
    if can_send s
    then some (s.client_window, (s.base.handshake_msg_id, s.worker_thread_id))
    else none
