-- ===== src/Api/Handles.antt =====
-- `Handle` of src/util/util_remixapi.h: the client numbers its handles, and the server maps the
-- numbers to the handles of the Remix API, where 0 is the null pointer. The commands that create,
-- destroy and draw by a handle, in src/client/remix_api.cpp and src/server/main.cpp.
pub mod Reuse
pub mod Materials
use bridge_remix_mhfz.Base.{
  ℕ, List, [], ◌∷◌, Option, none, some, Bool, true, false, ◌&&◌, not, ltb, ◌==◌, if◌then◌else◌,
}
use bridge_remix_mhfz.Base.Words.{add32}

-- `Handle()` of the client: the number, and `nextUid` after it.
unfoldable pub new_handle : ℕ → ℕ × ℕ
new_handle next_uid = (next_uid, add32 next_uid 1)

unfoldable pub is_valid_client : ℕ → ℕ → Bool
is_valid_client next_uid uid = ltb 0 uid && ltb uid next_uid

pub data ErrorCode : Type 0 where
  success invalid_arguments : ErrorCode

-- `remixapi_DestroyMaterial`, `...Mesh`, `...Light` and `remixapi_DrawLightInstance` of the client:
-- the number that is sent, if any.
unfoldable pub send_handle : ℕ → ℕ → ErrorCode × Option ℕ
unfolding is_valid_client
send_handle next_uid uid =
    if is_valid_client next_uid uid then (success, some uid) else (invalid_arguments, none)

-- `s_handleMap`
abbrev pub HandleMap : Type 0
HandleMap = List (ℕ × ℕ)

unfoldable pub find_handle : ℕ → HandleMap → Option ℕ
find_handle uid [] = none
find_handle uid ((other, remix_handle) ∷ handles) =
    let rest = find_handle uid handles in if other == uid then some remix_handle else rest

unfoldable pub erase_handle : ℕ → HandleMap → HandleMap
erase_handle uid [] = []
erase_handle uid ((other, remix_handle) ∷ handles) =
    let rest = erase_handle uid handles in
    if other == uid then rest else (other, remix_handle) ∷ rest

unfoldable pub put_handle : ℕ → ℕ → HandleMap → HandleMap
unfolding erase_handle
put_handle uid remix_handle handles = (uid, remix_handle) ∷ erase_handle uid handles

abbrev pub is_some : {A : Type 0} → Option A → Bool
is_some none = false
is_some (some v) = true

unfoldable pub is_valid_server : ℕ → HandleMap → Bool
unfolding find_handle
is_valid_server uid handles = ltb 0 uid && is_some (find_handle uid handles)

abbrev entry : ℕ → HandleMap → Option ℕ → ℕ × HandleMap
entry uid handles (some remix_handle) = (remix_handle, handles)
entry uid handles none = (0, put_handle uid 0 handles)

-- `operator RemixApiHandleT`: `s_handleMap[uid]` puts a null pointer where there is nothing. Its
-- assertion of `isValid()` is only there in a debug build; this is what a release build does.
unfoldable pub to_remix : ℕ → HandleMap → ℕ × HandleMap
unfolding find_handle put_handle
to_remix uid handles = entry uid handles (find_handle uid handles)

-- `RemixApi_CreateMaterial`, `...Mesh` and `...Light` of the server, by what the Remix API returned
unfoldable pub create : ℕ → Option ℕ → HandleMap → HandleMap
unfolding put_handle
create uid none handles = handles
create uid (some remix_handle) handles = put_handle uid remix_handle handles

-- `RemixApi_DestroyMaterial`, `...Mesh` and `...Light` of the server: the handle that is destroyed.
unfoldable pub destroy : ℕ → HandleMap → Option ℕ × HandleMap
unfolding is_valid_server to_remix erase_handle
destroy uid handles =
    let resolved = to_remix uid handles in
    if is_valid_server uid handles
    then (some resolved.0, erase_handle uid resolved.1)
    else (none, handles)

-- `RemixApi_DrawLightInstance` of the server: the handle that is drawn.
unfoldable pub draw : ℕ → HandleMap → Option ℕ × HandleMap
unfolding is_valid_server to_remix
draw uid handles =
    let resolved = to_remix uid handles in
    if is_valid_server uid handles then (some resolved.0, resolved.1) else (none, handles)

-- `RemixApi_DrawInstance` of the server: the mesh that is drawn. A number that is not valid is
-- reported and passed on as it is.
unfoldable pub draw_mesh : ℕ → HandleMap → ℕ × HandleMap
unfolding is_valid_server to_remix
draw_mesh uid handles =
    let resolved = to_remix uid handles in
    if is_valid_server uid handles then resolved else (uid, handles)

-- `RemixApi_CreateMesh` of the server: the materials of the surfaces, without a test.
unfoldable pub resolve_materials : List ℕ → HandleMap → List ℕ × HandleMap
unfolding to_remix
resolve_materials [] handles = ([], handles)
resolve_materials (uid ∷ uids) handles =
    let resolved = to_remix uid handles in
    let rest = resolve_materials uids resolved.1 in (resolved.0 ∷ rest.0, rest.1)
