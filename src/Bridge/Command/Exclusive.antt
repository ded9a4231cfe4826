-- ===== src/Bridge/Command/Exclusive.antt =====
-- One command at a time, from its constructor to its destructor.
use bridge_remix_mhfz.Base.{
  ℕ, ◌+◌, ◌%◌, ◌≡◌, ◌∙◌, sym, ap, refl, subst, List, [], ◌∷◌, Option, none, some, Bool, true, false,
  arith, Option-cases, inl, inr, if◌then◌else◌,
}
use bridge_remix_mhfz.Base.Words.{Arch, x86, x64, add32, u32_mod}
use bridge_remix_mhfz.Base.Results.{Result, success}
use bridge_remix_mhfz.Queue.{begin_batch, end_batch}
use bridge_remix_mhfz.Buffer.{DataQueue}
use bridge_remix_mhfz.Atomic.{AtomicQueue, stored}
use bridge_remix_mhfz.Atomic.Sequential.{PushEnd, pushed, full, push-PushEnd}
use bridge_remix_mhfz.Bridge.{Header, Bridge, minus_one32}
use bridge_remix_mhfz.Bridge.Sync.{
  WaitRound, Synced, synced, exited, thrown, waiting, sync_data_queue,
}
use bridge_remix_mhfz.Bridge.Sync.Frame.{OnSynced, sync_data_queue-Frame}
use bridge_remix_mhfz.Bridge.Command.{
  refused, opened, announced, pushed_word, send_data, begin_command, Try, push_tries, header_of,
  end_command,
}

InProgress : Synced → Type 0
InProgress (synced b rounds) = b.writer.cmd_in_progress ≡ true
InProgress _ = Unit

-- A word that is sent leaves the command in progress.
send_data-InProgress :
    (m : Arch) (retries : ℕ) (b : Bridge) (word : ℕ) (rounds : List WaitRound)
    → b.writer.cmd_in_progress ≡ true
    → InProgress (send_data m retries b word rounds)
unfolding send_data InProgress
send_data-InProgress m retries b word rounds h =
    go (sync_data_queue m retries b 1 false rounds)
      (sync_data_queue-Frame m retries b 1 false rounds) b.bridge_running
  where
    go :
        (s : Synced)
        → OnSynced b s
        → (running : Bool) → InProgress (if running then pushed_word m word s else synced b rounds)
    go s f false = h
    go (synced b' rest) f true = f.same_in_progress ∙ h
    go exited f true = tt
    go thrown f true = tt
    go waiting f true = tt

started-InProgress :
    (m n : Arch) (retries : ℕ) (b : Bridge) (rounds : List WaitRound) (o : Option DataQueue)
    → InProgress (elim o [ none ↦ thrown | some q ↦ announced n retries (opened m b q) rounds ])
unfolding InProgress
started-InProgress m n retries b rounds none = tt
started-InProgress m x86 retries b rounds (some q) =
    send_data-InProgress x86 retries (opened m b q) b.cmd_uid rounds refl
started-InProgress m x64 retries b rounds (some q) = refl

refused-InProgress : (m : Arch) → InProgress (refused m)
unfolding refused InProgress
refused-InProgress x86 = tt
refused-InProgress x64 = tt

begin_command-InProgress :
    (m : Arch) (retries : ℕ) (b : Bridge) (rounds : List WaitRound)
    → InProgress (begin_command m retries b rounds)
unfolding begin_command InProgress
begin_command-InProgress m retries b rounds =
    go b.writer.cmd_in_progress b.bridge_running _
      (started-InProgress m m retries b rounds (begin_batch b.writer.data_queue))
  where
    go :
        (busy running : Bool) (started : Synced)
        → InProgress started
        → InProgress (
            if busy
            then refused m
            else if running
            then started
            else synced (opened m b b.writer.data_queue) rounds)
    go true running started s = refused-InProgress m
    go false true started s = s
    go false false started s = refl

-- After a constructor that has come back, another one before the destructor does not start a
-- command: on the client it waits for the mutex, on the server it ends the process.
pub begin_command-exclusive :
    (m : Arch) (retries : ℕ) (b b' : Bridge) (rounds rest again : List WaitRound)
    → begin_command m retries b rounds ≡ synced b' rest
    → begin_command m retries b' again ≡ (elim m [ x86 ↦ waiting | x64 ↦ exited ])
unfolding begin_command InProgress refused
begin_command-exclusive m retries b b' rounds rest again e =
    refuses m b' (subst InProgress e (begin_command-InProgress m retries b rounds))
  where
    refuses :
        (n : Arch) (c : Bridge)
        → InProgress (synced c rest)
        → begin_command n retries c again ≡ (elim n [ x86 ↦ waiting | x64 ↦ exited ])
    refuses x86 c p = ground (arith, p)
    refuses x64 c p = ground (arith, p)

-- How a push of the destructor's loop has gone: the header is in the queue behind the consumer's
-- counter as it was seen.
pub record Sent (q q' : AtomicQueue Header) (header : Header) : Type 0 where
  pub before : AtomicQueue Header
  pub same_slots : before.slots ≡ q.slots
  pub same_read : before.read ≡ q.read
  pub now : q' ≡ stored before header

push_tries-Sent :
    (m : Arch) (timeout_ms retries n : ℕ) (q : AtomicQueue Header) (header : Header)
    (tries : List Try) (q' : AtomicQueue Header) (t : Try)
    → push_tries m timeout_ms retries n q header tries ≡ some (success, q', t)
    → Sent q q' header
unfolding push_tries
push_tries-Sent m timeout_ms retries n q header [] q' t e = absurd (ground arith)
push_tries-Sent m timeout_ms retries n q header (x ∷ tries) q' t e =
    elim (Option-cases (bridge_remix_mhfz.Atomic.push timeout_ms q header x.rounds)) [
      | inl none_yet ↦ absurd (ground arith)
      | inr (out, ended) ↦
          go out ended (push-PushEnd timeout_ms q header x.rounds out ended) (λ write.
            push_tries-Sent m timeout_ms retries (n + 1) (record q { write = write }) header tries
              q' t)
    ]
  where
    go :
        (out : Result × AtomicQueue Header)
        → bridge_remix_mhfz.Atomic.push timeout_ms q header x.rounds ≡ some out
        → PushEnd timeout_ms q header out
        → ((write : ℕ)
            → push_tries m timeout_ms retries (n + 1) (record q { write = write }) header tries
              ≡ some (success, q', t)
            → Sent (record q { write = write }) q' header)
        → Sent q q' header
    go out ended (pushed seen h eq) more = record {
      before = record q { write = seen };
      same_slots = refl;
      same_read = refl;
      now = ground (arith, eq);
    }
    go out ended (full seen h t eq) more =
        let s = more seen (ground (arith, eq)) in
        record {
          before = s.before;
          same_slots = s.same_slots;
          same_read = s.same_read;
          now = s.now;
        }

-- What a command leaves behind: it is closed, on the client the number has gone up, and if the
-- bridge is still running its header is in the command queue.
pub record Ended (m : Arch) (b b' : Bridge) (command flags handle : ℕ) : Type 0 where
  pub is_closed : b'.writer.cmd_in_progress ≡ false
  pub no_batch : b'.writer.data_queue.batch_in_progress ≡ false
  pub no_start : b'.cur_batch_start_pos ≡ minus_one32
  pub next_uid : b'.cmd_uid ≡ (elim m [ x86 ↦ add32 b.cmd_uid 1 | x64 ↦ b.cmd_uid ])
  pub header_sent :
      b'.bridge_running ≡ true
      → Sent b.writer.commands b'.writer.commands (record {
        command = command;
        flags = flags;
        data_offset = b.writer.data_queue.pos % u32_mod;
        handle = handle;
      })

-- Where the destructor comes back on a running bridge, it has closed the command, whatever became
-- of its pushes; and if the bridge runs on behind it, a header is stored at the producer's counter
-- that has the command, its flags and its handle, and as data offset the writer's position in the data
-- queue, in 32 bits.
pub end_command-Ended :
    (m : Arch) (timeout_ms retries : ℕ) (b b' : Bridge) (command flags handle : ℕ)
    (tries : List Try)
    → b.bridge_running ≡ true
    → end_command m timeout_ms retries b command flags handle tries ≡ some b'
    → Ended m b b' command flags handle
unfolding end_command end_batch
end_command-Ended m timeout_ms retries b b' command flags handle tries on e =
    let header = header_of b command flags handle in
    elim (Option-cases (push_tries m timeout_ms retries 0 b.writer.commands header tries)) [
      | inl none_yet ↦ absurd (ground arith)
      | inr ((result, commands, t), p) ↦ record {
        is_closed = ground arith;
        no_batch = ground arith;
        no_start = ground arith;
        next_uid = ground arith;
        header_sent = λ run.
            let ok : result ≡ success = ground arith in
            let same : b'.writer.commands ≡ commands = ground arith in
            subst (λ q. Sent b.writer.commands q header) (sym same)
              (push_tries-Sent m timeout_ms retries 0 b.writer.commands header tries commands t
                (p ∙ ap (λ r. some (r, commands, t)) ok));
      }
    ]
