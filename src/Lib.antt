-- ===== src/Lib.antt =====
-- bridge-remix: the bridge between a 32-bit Direct3D 9 client and the 64-bit renderer server.
--
-- The client's D3D9 calls become commands and data in two queues in shared memory; the server
-- pulls them in order and answers through a second pair. Larger buffers go through a heap that
-- both processes map. The client keeps a copy of the device's state, and the calls of the Remix API
-- are serialized into the same queues. This development models these parts.
--
-- Base -- names, Boolean tests and lists, and the words of the two processes (`Arch`: `size_t` has 32
--   bits in the client, 64 in the server).
-- Queue -- src/util/util_circularqueue.h, `CircularQueue<T>`. A record for the object, one function
--   per member function; the shared memory is the list of slots.
-- Buffer -- src/util/util_circularbuffer.h, `CircularBuffer<uint32_t>`: objects of any size over Queue.
--   `push_object`, `pull_object` and `begin_blob_push` are push(size, obj), pull(obj) and
--   begin_blob_push. Buffer/Bytes is memcpy into words, least significant byte first.
-- Atomic -- src/util/util_atomiccircularqueue.h, the command queue of one producer and one consumer.
--   A blocking call takes the rounds of its waiting loop as a list. Atomic/Race runs both sides at
--   once, one atomic access a move, in any order.
-- Heap -- src/util/util_sharedheap.h and .cpp. Heap/Chunks and Heap/Client are the side that allocates,
--   Heap/Server the side that follows its messages (three commands in src/server/main.cpp), Heap/Sync
--   both.
-- Bridge -- src/util/util_bridgecommand.h and .cpp, util_ipcchannel.h, util_bridge_state.h: Bridge/Command
--   opens, fills and sends a command (a second one waits for the client's mutex), Bridge/Sync is syncDataQueue, Bridge/Wait the waiting calls,
--   Bridge/Receive the reader and the end of a command in ProcessDeviceCommandQueue.
-- Serial -- src/util/util_serializable.h and util_remixapi.cpp: a type's sizeOf, serialize and
--   deserialize are a record of functions, the fold over a macro `...Vars` a combination of those of the
--   members. Serial/Material, Light, Instance and Mesh have the structs of the Remix API, Serial/Message
--   the class Serializable.
-- Api -- src/util/util_remixapi.h, src/client/remix_api.cpp and the Remix API commands of
--   src/server/main.cpp: the numbers of the structs, Api/Handles the handles of both sides, Api/Chain the
--   commands with a pNext chain, Api/Mesh CreateMesh. What Buffer and Bridge show of the data
--   queue is taken up as a list of words and objects, read in the order in which they were sent.
--   The Remix API itself is an argument. The assertions of Serializable and that of a path's length are
--   modelled as failures. Those of Handle are left out, as in a release build: behind its constructors the
--   code mostly tests again, and CreateMesh goes on with what the lookup gives. A member that is not sent,
--   the sType of the object picking extension, is `none` when it is read back.
-- Channel -- src/util/util_messagechannel.h and .cpp: the two ends of a channel of window messages, their
--   handlers and the handshake. The functions of the operating system are arguments.
-- Device -- src/client/d3d9_device.cpp, d3d9_device_base.h and d3d9_stateblock.cpp: the state that the
--   client keeps of the device, and in Device/Constants the shader constants. Device/Setters has what
--   the setters share, one assignment with its flag
--   and its comparison, Device/Calls each of them with its tests, Device/Block and Device/Capture the
--   state blocks. Values and objects are numbers, and the floating-point products and the camera are
--   arguments; a setter does not wait for the server's response. `set_value` is
--   what the setters share; SetVertexDeclaration alone does not look for a recorded block, and
--   MultiplyTransform, which is not one assignment, is in Device/Calls.
-- Sizes -- src/util/util_texture_and_volume.h: rows, rectangles and offsets in a surface.
-- Config -- src/util/config/config.cpp: lines and options of the configuration file, and values.
-- Tests -- runs on concrete inputs, and each theorem at one.
--
-- Fuel and bounds: `double_until` (the doubling in `allocate`) takes fuel, and 32 rounds are enough
-- where it ends at all; the server's loop over extensions gets one round for each item; a
-- segment's size halves at most 32 times, `add_new_heap_segment` gives 33. Where a segment's memory cannot be created the process ends
--   (`terminates`), before the loop comes to a half.
-- The ring is smaller than 2^31 words in the invariant, so that no index wraps in either process.
--
-- Not modelled: the resources, swap chains and shaders of both sides, drawing, the Direct3D
-- runtime, and whatever calls the operating system. Log output is left out everywhere.
pub mod Base
pub mod Queue
pub mod Buffer
pub mod Atomic
pub mod Heap
pub mod Bridge
pub mod Sizes
pub mod Config
pub mod Serial
pub mod Api
pub mod Device
pub mod Channel
pub mod Tests
