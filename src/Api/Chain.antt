-- ===== src/Api/Chain.antt =====
-- The structs of a command with the extensions that their `pNext` chain links: what
-- src/client/remix_api.cpp sends for it, and the chain that src/server/main.cpp builds. An item is a
-- word or an object of the data queue, which gives them back in order.

pub mod Links
pub mod Arrives
use bridge_remix_mhfz.Base.{
  ℕ, zero, suc, ◌%◌, List, [], ◌∷◌, ◌++◌, Option, none, some, Bool, true, false, not, ◌==◌, ◌||◌,
  if◌then◌else◌, length, ◌>>=◌,
}
use bridge_remix_mhfz.Serial.Message.{serialize_message, deserialize_message}
use bridge_remix_mhfz.Api.{
  StructType, Value, serializable, static_dummy, struct_number, to_struct_type, material, portal,
  translucent, opaque, light, distant, cylinder, disk, rect, sphere, instanced, bone_transforms,
  blend, opaque_subsurface, object_picking, dome, usd,
}

pub data Item : Type 0 where
  word : ℕ → Item
  object : List ℕ → Item

-- A struct in a chain, or one whose `sType` is not known
pub data Link : Type 0 where
  known : (k : StructType) → Value k → Link
  unknown : ℕ → Link

pub data Command : Type 0 where
  create_material draw_instance create_light : Command

abbrev pub info : Command → StructType
info create_material = material
info draw_instance = instanced
info create_light = light

-- The cases of the switch on `sType`, which client and server share.
abbrev pub extensions : Command → List StructType
extensions create_material = opaque ∷ opaque_subsurface ∷ translucent ∷ portal ∷ []
extensions draw_instance = object_picking ∷ blend ∷ bone_transforms ∷ []
extensions create_light = sphere ∷ rect ∷ disk ∷ cylinder ∷ distant ∷ dome ∷ usd ∷ []

unfoldable pub is_case : StructType → List StructType → Bool
unfolding struct_number
is_case k [] = false
is_case k (c ∷ cases) = let rest = is_case k cases in struct_number c == struct_number k || rest

-- `serializeAndSend`
unfoldable pub serialize_and_send : (k : StructType) → Value k → Option (List Item)
unfolding serializable static_dummy serialize_message struct_number
serialize_and_send k v = do
  bytes ← serialize_message (serializable k) (static_dummy k) v
  some (word (struct_number k) ∷ object bytes ∷ [])

-- One turn of the client's loop over the chain: `Bool::True` is sent ahead of an extension.
unfoldable pub send_link : Command → Link → Option (List Item)
unfolding serialize_and_send is_case
send_link c (unknown number) = some []
send_link c (known k v) =
    let extension = serialize_and_send k v >>= (λ items. some (word 255 ∷ items)) in
    if is_case k (extensions c) then extension else some []

unfoldable pub send_chain : Command → List Link → Option (List Item)
unfolding send_link
send_chain c [] = some []
send_chain c (l ∷ chain) = do items ← send_link c l; rest ← send_chain c chain; some (items ++ rest)

-- `remixapi_CreateMaterial`, `remixapi_DrawInstance`, `remixapi_CreateLight`: the struct, its
-- extensions, `Bool::False`, and the new handle of a command that creates.
unfoldable pub send_info :
    (c : Command) → Value (info c) → List Link → List Item → Option (List Item)
unfolding serialize_and_send send_chain
send_info c v chain new_handle = do
  base ← serialize_and_send (info c) v
  rest ← send_chain c chain
  some (base ++ (rest ++ (word 0 ∷ new_handle)))

-- `DeviceBridge::get_data` of a word and of an object
unfoldable pub pull_word : List Item → Option (ℕ × List Item)
pull_word (word w ∷ items) = some (w, items)
pull_word _ = none

unfoldable pub pull_object : List Item → Option (List ℕ × List Item)
pull_object (object bytes ∷ items) = some (bytes, items)
pull_object _ = none

-- `pullBool`: the lowest byte of a word
unfoldable pub pull_bool : List Item → Option (Bool × List Item)
unfolding pull_word
pull_bool items = do (w, rest) ← pull_word items; some (not (w % 256 == 0), rest)

-- The extensions are local variables, one for each `sType`; a pointer is the number of its `sType`.
pub record Node : Type 0 where
  pub value : Link
  pub next : Option ℕ

-- The info's `pNext`, the variables, and the variable that `pInfoProto` points to, none for the info
pub record Received : Type 0 where
  pub info_next : Option ℕ
  pub nodes : ℕ → Option Node
  pub last : Option ℕ

abbrev pub nothing_received : Received
nothing_received = record { info_next = none; nodes = λ n. none; last = none }

abbrev pub update : (ℕ → Option Node) → ℕ → Option Node → ℕ → Option Node
update nodes number node n = if n == number then node else nodes n

abbrev pub with_next : Option Node → ℕ → Option Node
with_next none number = none
with_next (some node) number = some (record node { next = some number })

abbrev pub link_from : Option ℕ → Received → ℕ → Received
link_from none r number = record r { info_next = some number; last = some number }
link_from (some l) r number = record r {
  nodes = update r.nodes l (with_next (r.nodes l) number);
  last = some number;
}

-- `deserializeFromQueue(exts.x)`, which sets its `pNext` to null, `pInfoProto->pNext = &(exts.x)` and
-- `pInfoProto = &getInfoProto(exts.x)`
unfoldable pub link : Received → ℕ → Link → Received
link r number l =
    link_from r.last
      (record r { nodes = update r.nodes number (some (record { value = l; next = none })) }) number

-- a case of the server's switch, or its default
unfoldable pub receive_struct :
    Option StructType → Received → List Item → Option (Received × List Item)
unfolding pull_object serializable static_dummy deserialize_message link struct_number
receive_struct none r items = some (r, items)
receive_struct (some k) r items = do
  (bytes, rest) ← pull_object items
  v ← deserialize_message (serializable k) (static_dummy k) bytes
  some (link r (struct_number k) (known k v), rest)

abbrev only_case : List StructType → Option StructType → Option StructType
only_case cases none = none
only_case cases (some k) = if is_case k cases then some k else none

-- The server's loop, for at most `fuel` turns
unfoldable pub receive_extensions :
    Command → ℕ → Received → List Item → Option (Received × List Item)
unfolding pull_bool pull_word receive_struct to_struct_type is_case
receive_extensions c zero r items = none
receive_extensions c (suc fuel) r items = do
  (exists, after) ← pull_bool items
  let turn = do
    (number, rest) ← pull_word after
    (r, rest) ← receive_struct (only_case (extensions c) (to_struct_type number)) r rest
    receive_extensions c fuel r rest
  if exists then turn else some (r, after)

-- The commands of the server up to its call of the Remix API: the struct, its chain, and the items
-- that are left. No turn of the loop is without an item.
unfoldable pub receive_info :
    (c : Command) → List Item → Option (Value (info c) × (Received × List Item))
unfolding pull_word pull_object serializable static_dummy deserialize_message receive_extensions
    struct_number
receive_info c items = do
  (number, rest) ← pull_word items
  (bytes, rest) ← pull_object rest
  v ← deserialize_message (serializable (info c)) (static_dummy (info c)) bytes
  received ← receive_extensions c (length rest) nothing_received rest
  if number == struct_number (info c) then some (v, received) else none
