-- ===== src/Bridge/Command/Sends.antt =====
-- Words that are sent leave the words that the server has not read.
use bridge_remix_mhfz.Base.{
  ℕ, ◌+◌, ◌-◌, ◌≤◌, ◌<◌, ◌≡◌, ◌⊎◌, refl, ◌∙◌, ap, List, [], ◌∷◌, true, false, arith, length,
  get_elem?, leb, not, ◌&&◌, if◌then◌else◌,
}
use bridge_remix_mhfz.Base.Words.{Arch, size_mod}
use bridge_remix_mhfz.Queue.{CircularQueue, push_many}
use bridge_remix_mhfz.Queue.Inv.{IsValid}
use bridge_remix_mhfz.Queue.Fifo.{IsClear, push_many-eq-push_all, push_all-IsClear}
use bridge_remix_mhfz.Bridge.{Bridge}
use bridge_remix_mhfz.Bridge.Sync.{Synced, synced, exited, thrown, waiting, sync_data_queue}
use bridge_remix_mhfz.Bridge.Sync.Frame.{OnSynced, sync_data_queue-Frame}
use bridge_remix_mhfz.Bridge.Sync.NoOverwrite.{Positions, unread, sync_data_queue-NoOverwrite}
use bridge_remix_mhfz.Bridge.Command.{send_many}

-- A word between the server's position and the start of the batch, going round if the start is
-- not behind the server in the same lap.
abbrev pub IsUnread : Bridge → ℕ → ℕ → ℕ → Type 0
IsUnread b server start j =
    if leb server start && not b.writer.server_reset_pos_required
    then (server ≤ j) × (j < start)
    else (server ≤ j)
    ⊎ (j < start)

unread-IsClear :
    (b : Bridge) (server start n j : ℕ)
    → Positions b server start
    → j < b.writer.data_queue.size
    → IsUnread b server start j
    → unread b server start + (b.writer.data_queue.pos - start) + n ≤ b.writer.data_queue.size
    → IsClear b.writer.data_queue.size b.writer.data_queue.pos n j
unread-IsClear b server start n j p h u le = ground arith

-- Words that `send_many` sends on a running bridge without waiting leave every word that the server
-- has not read: one between the server's position and the start of the batch, a lap apart if a
-- reset is required or the server stands in front. The batch has not gone round the end before, it
-- fits into the valid queue with the new words, and the new words do not go round where the server
-- stands in front.
pub send_many-Keeps :
    (m : Arch) (retries : ℕ) (b b' : Bridge) (words : List ℕ) (server start j : ℕ)
    → Positions b server start
    → IsValid b.writer.data_queue
    → b.writer.data_queue.batch_size < size_mod m
    → b.bridge_running ≡ true
    → 0 < length words
    → length words + (b.writer.data_queue.pos - start) ≤ b.writer.data_queue.size
    → (start < server → b.writer.data_queue.pos + length words ≤ b.writer.data_queue.size)
    → j < b.writer.data_queue.size
    → IsUnread b server start j
    → send_many m retries b words [] ≡ synced b' []
    → get_elem? b'.writer.data_queue.slots j ≡ get_elem? b.writer.data_queue.slots j
unfolding send_many
send_many-Keeps m retries b b' words server start j p v s on k l front h u e =
    go (sync_data_queue m retries b (length words) false [])
      (sync_data_queue-Frame m retries b (length words) false []) refl
  where
    q : CircularQueue ℕ
    q = b.writer.data_queue

    clear :
        (c : Bridge)
        → sync_data_queue m retries b (length words) false [] ≡ synced c []
        → IsClear q.size q.pos (length words) j
    clear c eq =
        unread-IsClear b server start (length words) j p h u
          (sync_data_queue-NoOverwrite m retries (length words) b c server start p k l front eq)

    kept :
        IsClear q.size q.pos (length words) j
        → get_elem? (push_many m q words).1.slots j ≡ get_elem? q.slots j
    kept c =
        ap (λ o. get_elem? o.1.slots j) (push_many-eq-push_all m words q v s)
        ∙ push_all-IsClear m words q j v h c

    go :
        (o : Synced)
        → OnSynced b o
        → sync_data_queue m retries b (length words) false [] ≡ o
        → get_elem? b'.writer.data_queue.slots j ≡ get_elem? q.slots j
    go (synced c []) f eq =
        let same : b'.writer.data_queue ≡ (push_many m c.writer.data_queue words).1 =
          ground arith in
        ap (λ (d : CircularQueue ℕ). get_elem? d.slots j)
          (same ∙ ap (λ d. (push_many m d words).1) f.same_data)
        ∙ kept (clear c eq)
    go (synced c (r ∷ rest)) f eq = absurd (ground arith)
    go exited f eq = absurd (ground arith)
    go thrown f eq = absurd (ground arith)
    go waiting f eq = absurd (ground arith)
