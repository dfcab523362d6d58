-- ===== src/Client.antt =====
-- src/kesctl/client.cxx and client.hxx: the tool sends one command, and prints the response. The
-- socket is that of Connect; its completions arrive as calls of `on_write` and `on_read`.
pub mod Spec
pub mod Completion
pub mod Framing
pub mod Exchange
pub mod Connect
use kexplorer_server.Prelude.{
  ℕ, ◌+◌, ◌*◌, Bool, true, false, List, [], ◌∷◌, ◌++◌, take, drop, if◌then◌else◌, ◌==◌, Option,
  none, some,
}
use kexplorer_server.Prelude.Text.{Str}
use kexplorer_server.Buffer.{ContinuousBuffer, create, push, pop, reset, data_ptr, add_size}
use kexplorer_server.Buffer.Inv.{contents}
use kexplorer_server.Session.{scan}

-- What goes to the two streams, apart from the verbose notes: a response, or a message.
pub data Output : Type 0 where
  printed : Str → Output
  write_failed read_failed response_failed : Output

-- The operation of the socket that is under way; `stopped`: the event loop was told to stop.
pub data Phase : Type 0 where
  idle reading stopped : Phase
  writing : Str → Phase

-- The members that change, with what was written to the streams, and what the event loop waits for.
pub record Client : Type 0 where
  pub stop : Bool
  pub buffer : ContinuousBuffer
  pub json_depth : ℕ
  pub json_depth_max : ℕ
  pub phase : Phase
  pub out : List Output

abbrev pub buffer_size : ℕ
buffer_size = 65536

abbrev pub buffer_limit : ℕ
buffer_limit = 64 * 1024 * 1024

-- The constructor.
unfoldable pub open_client : Client
open_client = record {
  stop = false;
  buffer = create buffer_size buffer_limit;
  json_depth = 0;
  json_depth_max = 0;
  phase = Phase.idle;
  out = [];
}

-- `stop()`.
unfoldable pub request_stop : Client → Client
request_stop c = record c { stop = true }

unfoldable pub reset_response : Client → Client
reset_response c = record c { json_depth = 0; json_depth_max = 0; buffer = reset c.buffer }

abbrev pub say : Output → Client → Client
say o c = record c { out = c.out ++ (o ∷ []) }

-- `processJson`: the first `size` bytes at `data()`.
unfoldable pub process_json : Option (List ℕ) → ℕ → Client → Client
process_json none size c = say (Output.printed []) c
process_json (some memory) size c = say (Output.printed (take size memory)) c

-- A complete response.
unfoldable pub complete_response : Client → ℕ → Client
complete_response c pos_cur =
    let b = (push c.buffer (0 ∷ [])).1 in
    let told = process_json (data_ptr b) pos_cur (record c { buffer = b }) in
    record told { buffer = (pop told.buffer (add_size pos_cur 1)).1; json_depth_max = 0 }

-- The part of `process` behind the loop.
unfoldable pub finish_response : Client → ℕ → Client × Bool
finish_response c pos_cur =
    if c.json_depth == 0
    then (if c.json_depth_max == 0 then (c, false) else (complete_response c pos_cur, true))
    else (c, false)

-- The part behind `push`.
unfoldable pub examine_response : Client → ℕ → Client × Bool
examine_response c pos_prev =
    if c.buffer.used == pos_prev
    then (c, false)
    else (let r = scan (drop pos_prev (contents c.buffer)) c.json_depth c.json_depth_max in
        let counted = record c { json_depth = r.depth; json_depth_max = r.depth_max } in
        if r.valid
        then finish_response counted c.buffer.used
        else (say Output.response_failed counted, true))

-- `Client::process`: whether no more data is needed.
unfoldable pub process : Client → List ℕ → Client × Bool
process c xs =
    let (pushed, b) = push c.buffer xs in
    if pushed
    then examine_response (record c { buffer = b }) c.buffer.used
    else (say Output.response_failed (record c { buffer = b }), true)

-- `command`, with whether there is a connection; `none`: it throws.
unfoldable pub command : Bool → Str → Client → Option Client
command connected cmd c =
    if c.stop
    then some c
    else (if connected
        then some (record (reset_response c) { phase = Phase.writing cmd })
        else none)

-- `onWrite`, with whether all was sent.
unfoldable pub on_write : Bool → Client → Client
on_write sent c =
    if sent
    then (if c.stop then record c { phase = Phase.idle } else record c { phase = Phase.reading })
    else say Output.write_failed (record c { phase = Phase.idle })

-- `onRead`, with the bytes that arrived, unless the read failed.
unfoldable pub on_read : Option (List ℕ) → Client → Client
on_read none c = say Output.read_failed (record c { phase = Phase.idle })
on_read (some xs) c =
    let (c', enough) = process c xs in
    record c' { phase = if enough then Phase.stopped else Phase.reading }

abbrev pub is_reading : Phase → Bool
is_reading Phase.reading = true
is_reading phase = false

-- The chunks of a response, as long as the client reads.
unfoldable pub receive : Client → List Str → Client
unfolding on_read
receive c [] = c
receive c (xs ∷ chunks) =
    let rest = receive (on_read (some xs) c) chunks in if is_reading c.phase then rest else c
