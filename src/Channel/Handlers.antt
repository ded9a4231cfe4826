-- ===== src/Channel/Handlers.antt =====
-- Registering and removing handlers in src/util/util_messagechannel.cpp.
use bridge_remix_mhfz.Base.{
  ℕ, ◌≡◌, refl, ap, sym, ◌∙◌, List, [], ◌∷◌, Option, none, some, Bool, true, false, not, ◌&&◌, ◌==◌,
  ==_self, if◌then◌else◌, arith,
}
use bridge_remix_mhfz.Channel.{
  Handler, MessageChannel, find, erase, put, known_or, id_or_zero, get_message_id,
  register_handler_id, register_handler, remove_handler, handler_of,
}

same_key : (j k l : ℕ) → (k == l) ≡ true → (j == l) ≡ (j == k)
same_key j k l h = ground arith

apart : (j k l : ℕ) → (k == l) ≡ false → (j == l) ≡ true → (j == k) ≡ false
apart j k l h g = ground arith

module _ {A : Type 0} where
  none_if : (b : Bool) → ◌≡◌ {A = Option A} none (if b then none else none)
  none_if true = refl
  none_if false = refl

  find-erase_at :
      (j k : ℕ) (entry : ℕ × A) (map : List (ℕ × A)) (b c : Bool)
      → (k == entry.0) ≡ b
      → (j == entry.0) ≡ c
      → find j (erase k map) ≡ (if j == k then none else find j map)
      → find j (if b then erase k map else entry ∷ erase k map)
        ≡ (if j == k then none else if c then some entry.1 else find j map)
  find-erase_at j k entry map true true h g e =
      rw (sym (same_key j k entry.0 h), g) (e ∙ rw (sym (same_key j k entry.0 h), g) refl)
  find-erase_at j k entry map true false h g e = e
  find-erase_at j k entry map false true h g e = rw (apart j k entry.0 h g, g) refl
  find-erase_at j k entry map false false h g e = rw g e

  -- Erasing a key hides its entry and no other.
  pub find-erase :
      (j k : ℕ) (map : List (ℕ × A)) → find j (erase k map) ≡ (if j == k then none else find j map)
  find-erase j k [] = none_if (j == k)
  find-erase j k (entry ∷ map) =
      find-erase_at j k entry map (k == entry.0) (j == entry.0) refl refl (find-erase j k map)

  find-put_at :
      (j k : ℕ) (value : A) (map : List (ℕ × A)) (b : Bool)
      → (j == k) ≡ b
      → (if b then some value else find j (erase k map)) ≡ (if b then some value else find j map)
  find-put_at j k value map true h = refl
  find-put_at j k value map false h = find-erase j k map ∙ rw h refl

  pub find-put :
      (j k : ℕ) (value : A) (map : List (ℕ × A))
      → find j (put k value map) ≡ (if j == k then some value else find j map)
  find-put j k value map = find-put_at j k value map (j == k) refl

-- What is called for a message is untouched by looking up a name.
known_or-handlers :
    (known : Option ℕ) (registered name : ℕ) (c : MessageChannel)
    → (known_or known registered name c).1.handlers ≡ c.handlers
known_or-handlers (some msg) registered name c = refl
known_or-handlers none registered name c = by_registered (registered == 0)
  where
    by_registered :
        (b : Bool)
        → (if b then c else record c { msgs = put name registered c.msgs }).handlers ≡ c.handlers
    by_registered true = refl
    by_registered false = refl

register_at :
    (msg j : ℕ) (handler : Handler) (c : MessageChannel) (handlers : List (ℕ × Handler)) (b : Bool)
    → (msg == 0) ≡ b
    → c.handlers ≡ handlers
    → find j (if b then c else record c { handlers = put msg handler c.handlers }).handlers
      ≡ (if not b && j == msg then some handler else find j handlers)
register_at msg j handler c handlers true h e = rw e refl
register_at msg j handler c handlers false h e =
    ap (λ map. find j (put msg handler map)) e ∙ find-put j msg handler handlers

-- Registering a handler for a name succeeds where the name has a number or is given one that is not
-- 0. Then the handler is what a message of this number calls, and any other message calls what it
-- called before; where registering fails nothing that is called changes.
pub register_handler-handler_of :
    (register_window_message : ℕ → ℕ) (name : ℕ) (handler : Handler) (c : MessageChannel) (j : ℕ)
    → let msg = (get_message_id register_window_message name c).0 in
      ((register_handler register_window_message name handler c).0 ≡ not (msg == 0))
      × (handler_of j (register_handler register_window_message name handler c).1
          ≡ (if not (msg == 0) && j == msg then some handler else handler_of j c))
unfolding register_handler register_handler_id get_message_id handler_of
register_handler-handler_of register name handler c j =
    let found = get_message_id register name c in
    (
      refl,
      register_at found.0 j handler found.1 c.handlers (found.0 == 0) refl
          (known_or-handlers (find name c.msgs) (register name) name c),
    )

-- A name that has been looked up with success is known by its number.
known_or-known :
    (known : Option ℕ) (registered name : ℕ) (c : MessageChannel)
    → find name c.msgs ≡ known
    → ((known_or known registered name c).0 == 0) ≡ false
    → find name (known_or known registered name c).1.msgs
      ≡ some (known_or known registered name c).0
known_or-known (some msg) registered name c e h = e
known_or-known none registered name c e h =
    rw h (find-put name name registered c.msgs ∙ rw (==_self name) refl)

remove_at :
    (msg name j : ℕ) (handler : Handler) (found : MessageChannel) (handlers : List (ℕ × Handler))
    → found.handlers ≡ handlers
    → find name found.msgs ≡ some msg
    → find j
        (remove_handler name (record found { handlers = put msg handler found.handlers })).handlers
      ≡ (if j == msg then none else find j handlers)
unfolding remove_handler
remove_at msg name j handler found handlers e k =
    ap (λ known. find j (erase (id_or_zero known) (put msg handler found.handlers))) k
    ∙ ap (λ map. find j (erase msg (put msg handler map))) e
    ∙ find-erase j msg (put msg handler handlers)
    ∙ ap (λ h. if j == msg then none else h) (find-put j msg handler handlers)
    ∙ twice_if (j == msg)
  where
    twice_if :
        (b : Bool)
        → (if b then none else if b then some handler else find j handlers)
          ≡ (if b then none else find j handlers)
    twice_if true = refl
    twice_if false = refl

-- Removing the handler of a name that was registered with success takes away what its message calls,
-- and leaves what any other message calls; the name is forgotten.
pub remove_handler-register_handler :
    (register_window_message : ℕ → ℕ) (name : ℕ) (handler : Handler) (c : MessageChannel) (j : ℕ)
    → let msg = (get_message_id register_window_message name c).0 in
      let after = remove_handler name (register_handler register_window_message name handler c).1 in
      (msg == 0) ≡ false
      → (handler_of j after ≡ (if j == msg then none else handler_of j c))
        × (find name after.msgs ≡ none)
unfolding register_handler register_handler_id get_message_id handler_of remove_handler
remove_handler-register_handler register name handler c j h =
    let found = get_message_id register name c in
    rw h (
      remove_at found.0 name j handler found.1 c.handlers
          (known_or-handlers (find name c.msgs) (register name) name c)
          (known_or-known (find name c.msgs) (register name) name c refl h),
      find-erase name name found.1.msgs ∙ rw (==_self name) refl,
    )
