-- ===== src/Atomic/Race.antt =====
-- The command queue with the two processes running at once. Each move is one atomic access of
-- `push` or `pull`, a schedule is any sequence of moves, and the history of what has gone in and
-- come out is kept beside the state. The fences of the source make the order of the accesses
-- that of the moves.
pub mod Window
pub mod Inv
pub mod Write
pub mod Fifo
use bridge_remix_mhfz.Base.{ℕ, List, [], ◌∷◌, ◌++◌, Option, ◌==◌, if◌then◌else◌, get_elem?, set}
use bridge_remix_mhfz.Atomic.{AtomicQueue, queue_idx_inc, init_writer}

-- Where `push` stands: the counter is loaded, the queue found not full, the object stored.
pub data WriterAt {ℓ} (A : Type ℓ) : Type ℓ where
  idle : WriterAt A
  loaded : A → ℕ → WriterAt A
  ready : A → ℕ → WriterAt A
  stored : A → ℕ → WriterAt A

-- Where `pull` stands: the counter is loaded, the queue found not empty, the counter advanced
-- and the slot not read yet.
pub data ReaderAt : Type 0 where
  idle : ReaderAt
  loaded : ℕ → ReaderAt
  ready : ℕ → ReaderAt
  released : ℕ → ReaderAt

pub record State {ℓ} (A : Type ℓ) : Type ℓ where
  pub queue : AtomicQueue A
  pub writer : WriterAt A
  pub reader : ReaderAt
  pub pushed : List A
  pub pulled : List (Option A)

-- A move; the object is the one that an idle writer starts to push.
pub data Move {ℓ} (A : Type ℓ) : Type ℓ where
  write : A → Move A
  write_timeout : Move A
  read : Move A
  read_timeout : Move A

module _ {ℓ} {A : Type ℓ} where
  unfoldable pub initial : List A → ℕ → State A
  unfolding init_writer
  initial slots size = record {
    queue = init_writer slots size;
    writer = WriterAt.idle;
    reader = ReaderAt.idle;
    pushed = [];
    pulled = [];
  }

  unfoldable pub write_move : WriterAt A → A → State A → State A
  write_move WriterAt.idle x s = record s { writer = WriterAt.loaded x s.queue.read }
  write_move (WriterAt.loaded y current_read) x s = record s {
    writer =
        (if queue_idx_inc s.queue current_read == s.queue.write
          then WriterAt.loaded y s.queue.read
          else WriterAt.ready y current_read);
  }
  write_move (WriterAt.ready y current_read) x s =
      let q = s.queue in
      record s {
        queue = record q { slots = set q.slots current_read y };
        writer = WriterAt.stored y current_read;
      }
  write_move (WriterAt.stored y current_read) x s =
      let q = s.queue in
      record s {
        queue = record q { read = queue_idx_inc q current_read };
        writer = WriterAt.idle;
        pushed = s.pushed ++ y ∷ [];
      }

  unfoldable pub read_move : ReaderAt → State A → State A
  read_move ReaderAt.idle s = record s { reader = ReaderAt.loaded s.queue.write }
  read_move (ReaderAt.loaded current_write) s = record s {
    reader =
        (if current_write == s.queue.read
          then ReaderAt.loaded s.queue.write
          else ReaderAt.ready current_write);
  }
  read_move (ReaderAt.ready current_write) s =
      let q = s.queue in
      record s {
        queue = record q { write = queue_idx_inc q current_write };
        reader = ReaderAt.released current_write;
      }
  read_move (ReaderAt.released current_write) s = record s {
    reader = ReaderAt.idle;
    pulled = s.pulled ++ get_elem? s.queue.slots current_write ∷ [];
  }

  -- A call gives up only in the loop, before its test has passed.
  unfoldable pub write_give_up : WriterAt A → State A → State A
  write_give_up (WriterAt.loaded x cur) s = record s { writer = WriterAt.idle }
  write_give_up other s = s

  unfoldable pub read_give_up : ReaderAt → State A → State A
  read_give_up (ReaderAt.loaded cur) s = record s { reader = ReaderAt.idle }
  read_give_up other s = s

  unfoldable pub move : Move A → State A → State A
  unfolding write_move read_move write_give_up read_give_up
  move (Move.write x) s = write_move s.writer x s
  move Move.write_timeout s = write_give_up s.writer s
  move Move.read s = read_move s.reader s
  move Move.read_timeout s = read_give_up s.reader s

  unfoldable pub run : List (Move A) → State A → State A
  unfolding move
  run [] s = s
  run (m ∷ ms) s = run ms (move m s)
