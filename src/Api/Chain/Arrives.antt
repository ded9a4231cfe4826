-- ===== src/Api/Chain/Arrives.antt =====
-- The chain that src/client/remix_api.cpp sends is the one that src/server/main.cpp hands to the
-- Remix API.
use bridge_remix_mhfz.Base.{
  ℕ, zero, suc, ◌<◌, ◌≤◌, ◌≡◌, ◌≢◌, refl, sym, subst, ◌∙◌, List, [], ◌∷◌, ◌++◌, Option, some, Bool,
  true, false, if◌then◌else◌, arith, length, length-append, append_assoc, append-nil, ◌>>=◌,
  ==_self,
}
use bridge_remix_mhfz.Serial.Message.{message}
use bridge_remix_mhfz.Api.{StructType, Value, serializable, struct_number}
use bridge_remix_mhfz.Api.Laws.{
  IsSent, IsRead, received, serialize_message-IsSent, deserialize_message-IsRead,
  to_struct_type-struct_number,
}
use bridge_remix_mhfz.Api.Chain.{
  Item, word, object, Link, known, unknown, Command, create_material, draw_instance, create_light,
  info, extensions, is_case, serialize_and_send, send_chain, send_info, Received, nothing_received,
  link, receive_struct, receive_extensions, receive_info,
}
use bridge_remix_mhfz.Api.Chain.Links.{
  s_type, Reads, NotIn, Distinct, IsLinked, link-IsLinked, nothing_received-IsLinked,
}

-- The links of a chain that the client's switch has a case for, as they are read back
unfoldable pub sent_links : Command → List Link → List Link
unfolding is_case
sent_links c [] = []
sent_links c (unknown number ∷ chain) = sent_links c chain
sent_links c (known k v ∷ chain) =
    let rest = sent_links c chain in
    if is_case k (extensions c) then known k (received k v) ∷ rest else rest

abbrev pub LinksFit : List Link → Type 0
LinksFit [] = Unit {0}
LinksFit (unknown number ∷ chain) = LinksFit chain
LinksFit (known k v ∷ chain) = IsSent k v × LinksFit chain

-- a chain of which all is sent
abbrev AllSent : Command → List Link → Type 0
AllSent c [] = Unit {0}
AllSent c (unknown number ∷ chain) = ⊥
AllSent c (known k v ∷ chain) = (is_case k (extensions c) ≡ true) × IsRead k v × AllSent c chain

abbrev items_of : List Link → List Item
items_of [] = []
items_of (unknown number ∷ chain) = items_of chain
items_of (known k v ∷ chain) =
    word 255 ∷ word (struct_number k) ∷ object (message (serializable k) v) ∷ items_of chain

AllSent-if :
    (c : Command) (k : StructType) (v : Value k) (rest : List Link) (b : Bool)
    → is_case k (extensions c) ≡ b
    → IsRead k v
    → AllSent c rest
    → AllSent c (if b then known k v ∷ rest else rest)
AllSent-if c k v rest true e h sent = (e, h, sent)
AllSent-if c k v rest false e h sent = sent

sent_links-AllSent :
    (c : Command) (chain : List Link) → LinksFit chain → AllSent c (sent_links c chain)
unfolding sent_links
sent_links-AllSent c [] h = h
sent_links-AllSent c (unknown number ∷ chain) h = sent_links-AllSent c chain h
sent_links-AllSent c (known k v ∷ chain) h =
    AllSent-if c k (received k v) (sent_links c chain) (is_case k (extensions c)) refl h.0
      (sent_links-AllSent c chain h.1)

serialize_and_send-eq :
    (k : StructType) (v : Value k)
    → IsSent k v
    → serialize_and_send k v
      ≡ some (word (struct_number k) ∷ object (message (serializable k) (received k v)) ∷ [])
unfolding serialize_and_send
serialize_and_send-eq k v h = rw (serialize_message-IsSent k v h) refl

send_chain-if :
    (k : StructType) (v : Value k) (chain : List Link) (b : Bool)
    → (do
      items ←
          (if b
            then some (word 255 ∷ word (struct_number k) ∷ object (message (serializable k) v) ∷ [])
            else some [])
      some (items ++ items_of chain))
      ≡ some (items_of (if b then known k v ∷ chain else chain))
send_chain-if k v chain true = refl
send_chain-if k v chain false = refl

send_chain-eq :
    (c : Command) (chain : List Link)
    → LinksFit chain
    → send_chain c chain ≡ some (items_of (sent_links c chain))
unfolding send_chain sent_links
send_chain-eq c [] h = refl
send_chain-eq c (unknown number ∷ chain) h = rw (send_chain-eq c chain h) refl
send_chain-eq c (known k v ∷ chain) h =
    rw (serialize_and_send-eq k v h.0, send_chain-eq c chain h.1)
      (send_chain-if k (received k v) (sent_links c chain) (is_case k (extensions c)))

NotIn-front :
    (n : ℕ) (links more : List Link) (new : Link)
    → NotIn n (links ++ (new ∷ more))
    → (n ≢ s_type new) × NotIn n links
NotIn-front n [] more new h = (h.0, tt)
NotIn-front n (l ∷ links) more new h =
    let rest = NotIn-front n links more new h.1 in (rest.0, (h.0, rest.1))

Distinct-front :
    (links more : List Link) (new : Link)
    → Distinct (links ++ (new ∷ more))
    → NotIn (s_type new) links × Distinct links
Distinct-front [] more new h = (tt, tt)
Distinct-front (l ∷ links) more new h =
    let rest = Distinct-front links more new h.1 in
    let apart = NotIn-front (s_type l) links more new h.0 in
    ((λ e. apart.0 (sym e), rest.0), (apart.1, rest.1))

-- what the loop leaves: a chain with these links
abbrev Leaves : Option (Received × List Item) → List Link → List Item → Type 0
Leaves result links items = (r : Received) × (result ≡ some (r, items)) × IsLinked r links

receive_extensions-turn :
    (c : Command) (fuel : ℕ) (r : Received) (k : StructType) (v : Value k) (items : List Item)
    → is_case k (extensions c) ≡ true
    → IsRead k v
    → receive_extensions c
        (suc fuel)
        r
        (word 255 ∷ word (struct_number k) ∷ object (message (serializable k) v) ∷ items)
      ≡ receive_extensions c fuel (link r (struct_number k) (known k v)) items
unfolding receive_extensions receive_struct
receive_extensions-turn c fuel r k v items e h =
    rw (to_struct_type-struct_number k, e, deserialize_message-IsRead k v h) refl

receive_extensions-Leaves :
    (c : Command) (fuel : ℕ) (r : Received) (before links : List Link) (items : List Item)
    → AllSent c links
    → IsLinked r before
    → Distinct (before ++ links)
    → length links < fuel
    → Leaves
        (receive_extensions c fuel r (items_of links ++ (word 0 ∷ items)))
        (before ++ links)
        items
unfolding receive_extensions s_type
receive_extensions-Leaves c zero r before links items sent linked distinct enough =
    absurd (omega arith)
receive_extensions-Leaves c (suc fuel) r before [] items sent linked distinct enough =
    (r, refl, subst (IsLinked r) (sym (append-nil before)) linked)
receive_extensions-Leaves c (suc fuel) r before (unknown n ∷ links) items sent linked distinct
      enough =
    absurd sent
receive_extensions-Leaves c (suc fuel) r before (known k v ∷ links) items sent linked distinct
      enough =
    let new = known k v in
    let front = Distinct-front before links new distinct in
    let further =
      receive_extensions-Leaves c fuel (link r (struct_number k) new) (before ++ (new ∷ [])) links
        items sent.2 (link-IsLinked r before new linked front.0 front.1)
        (subst Distinct (sym (append_assoc before (new ∷ []) links)) distinct) (omega arith) in
    (
      further.0,
      receive_extensions-turn c fuel r k v (items_of links ++ (word 0 ∷ items)) sent.0 sent.1
          ∙ further.1,
      subst (IsLinked further.0) (append_assoc before (new ∷ []) links) further.2,
    )

length-items_of :
    (c : Command) (links : List Link) → AllSent c links → length links ≤ length (items_of links)
length-items_of c [] h = omega arith
length-items_of c (unknown n ∷ links) h = absurd h
length-items_of c (known k v ∷ links) h = omega (arith, length-items_of c links h.2)

received-info : (c : Command) (v : Value (info c)) → received (info c) v ≡ v
received-info create_material v = refl
received-info draw_instance v = refl
received-info create_light v = refl

-- A struct and its chain, each in the ranges of `IsSent` and no two sent extensions of the same
-- `sType`, are sent without a failing assertion. The server's loop ends and reads the struct, leaves
-- the items behind it, and following its chain reads the client's links that have a case, in their
-- order, each as it was sent except that the `sType` of object picking is indeterminate.
pub receive_info-send_info :
    (c : Command) (v : Value (info c)) (chain : List Link) (new_handle : List Item)
    → IsSent (info c) v
    → LinksFit chain
    → Distinct (sent_links c chain)
    → (items : List Item) × (r : Received) × (send_info c v chain new_handle ≡ some items)
      × (receive_info c items ≡ some (v, (r, new_handle)))
      × Reads r.nodes r.info_next (sent_links c chain)
unfolding send_info receive_info
receive_info-send_info c v chain new_handle h fit distinct =
    let links = sent_links c chain in
    let all = sent_links-AllSent c chain fit in
    let behind = items_of links ++ (word 0 ∷ new_handle) in
    let left =
      receive_extensions-Leaves c (length behind) nothing_received [] links new_handle all
        nothing_received-IsLinked distinct
        (omega (
          arith,
          length-items_of c links all,
          length-append (items_of links) (word 0 ∷ new_handle),
        )) in
    (
      word (struct_number (info c))
          ∷ object (message (serializable (info c)) (received (info c) v))
          ∷ behind,
      left.0,
      rw (serialize_and_send-eq (info c) v h, send_chain-eq c chain fit) refl,
      rw
          (
            deserialize_message-IsRead (info c) (received (info c) v) h,
            left.1,
            ==_self (struct_number (info c)),
            received-info c v,
          )
          refl,
      left.2.reads,
    )
