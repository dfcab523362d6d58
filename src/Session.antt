-- ===== src/Session.antt =====
-- src/kexplorer-server/sessionhandler.cxx and sessionhandler.hxx: the bytes of one connection are
-- gathered, cut into requests by counting braces, and handed to the request processor.
pub mod Scan
pub mod Spec
pub mod Dispatch
pub mod Refine
pub mod Chunks
use kexplorer_server.Prelude.{
  ℕ, ◌+◌, ◌-◌, Bool, true, false, List, [], ◌∷◌, drop, if◌then◌else◌, ◌==◌, ltb, Option, none, some,
}
use kexplorer_server.Prelude.Outcome.{Outcome, returns, undefined, map_outcome}
use kexplorer_server.Prelude.Text.{Str, TextAt, text_at}
use kexplorer_server.Buffer.{ContinuousBuffer, create, push, pop, reset, data_ptr, add_size}
use kexplorer_server.Buffer.Inv.{contents}

-- `CallbackResult` of include/kesrv/kesrv.hxx.
pub data CallbackResult : Type 0 where
  continues aborts : CallbackResult

-- The members but `m_options` and `m_peerAddr`.
pub record SessionHandler : Type 0 where
  pub id : ℕ
  pub buffer : ContinuousBuffer
  pub json_depth : ℕ
  pub json_depth_max : ℕ

-- The fields that the constructor sets, before it calls `startSession` of the request processor.
unfoldable pub open_session : ℕ → ℕ → ℕ → SessionHandler
open_session buffer_size buffer_limit id = record {
  id = id;
  buffer = create buffer_size buffer_limit;
  json_depth = 0;
  json_depth_max = 0;
}

-- The two depth counters, and `false` where the loop throws "Invalid JSON".
pub record Depths : Type 0 where
  pub valid : Bool
  pub depth : ℕ
  pub depth_max : ℕ

-- The body of the loop for one byte.
unfoldable pub scan_byte : ℕ → ℕ → ℕ → Depths
scan_byte c depth depth_max =
    if c == b'{'
    then (let deeper = add_size depth 1 in
        record {
          valid = true;
          depth = deeper;
          depth_max = if ltb depth_max deeper then deeper else depth_max;
        })
    else (if c == b'}'
        then (if depth == 0
            then record { valid = false; depth = depth; depth_max = depth_max }
            else record { valid = true; depth = depth - 1; depth_max = depth_max })
        else record { valid = true; depth = depth; depth_max = depth_max })

-- `while (cur < end)`, over the bytes of the range.
unfoldable pub scan : List ℕ → ℕ → ℕ → Depths
scan [] depth depth_max = record { valid = true; depth = depth; depth_max = depth_max }
scan (c ∷ cs) depth depth_max =
    let r = scan_byte c depth depth_max in
    let rest = scan cs r.depth r.depth_max in if r.valid then rest else r

-- The `catch` block: the session forgets what it holds, and asks to be closed.
unfoldable pub fail : SessionHandler → SessionHandler
fail h = record h { buffer = reset h.buffer; json_depth = 0; json_depth_max = 0 }

-- `IRequestProcessor::process(id, char*, size)` with the processor's state; it is given what is at the
-- pointer.
abbrev pub Processor {ℓ} : Type ℓ → Type ℓ
Processor S = S → ℕ → TextAt → ℕ → Outcome (S × Str)

-- What `process` returns, with the states that it leaves.
abbrev pub Answer {ℓ} : Type ℓ → Type ℓ
Answer S = S × SessionHandler × CallbackResult × Str

-- What follows the call of the request processor: drop the request and its NUL.
unfoldable pub conclude {ℓ} : {S : Type ℓ} → SessionHandler → ℕ → S × Str → Answer S
conclude h pos_cur (s, response) = (
  s,
  record h { buffer = (pop h.buffer (add_size pos_cur 1)).1; json_depth_max = 0 },
  continues,
  response,
)

module _ {ℓ} {S : Type ℓ} (processor : Processor S) where
  -- A complete request: terminate it, and have the text at `data()` processed, also where the
  -- terminator did not fit. (The parser may overwrite the text, which `pop` drops.)
  unfoldable pub dispatch : S → SessionHandler → ℕ → Outcome (Answer S)
  dispatch s h pos_cur =
      let b = (push h.buffer (0 ∷ [])).1 in
      elim (data_ptr b) [
        | none ↦ undefined
        | some memory ↦
            map_outcome (conclude (record h { buffer = b }) pos_cur)
              (processor s h.id (text_at memory) pos_cur)
      ]

  -- The part of `process` behind the loop.
  unfoldable pub finish : S → SessionHandler → Outcome (Answer S)
  finish s h =
      if h.json_depth == 0
      then (if h.json_depth_max == 0
          then returns (s, h, continues, [])
          else dispatch s h h.buffer.used)
      else returns (s, h, continues, [])

  -- The part behind `push`.
  unfoldable pub examine : S → SessionHandler → ℕ → Outcome (Answer S)
  examine s h pos_prev =
      if h.buffer.used == pos_prev
      then returns (s, h, continues, [])
      else (let r = scan (drop pos_prev (contents h.buffer)) h.json_depth h.json_depth_max in
          if r.valid
          then finish s (record h { json_depth = r.depth; json_depth_max = r.depth_max })
          else returns (s, fail h, aborts, []))

  -- `SessionHandler::process`; the list holds the `size` bytes at `data`.
  unfoldable pub process : S → SessionHandler → List ℕ → Outcome (Answer S)
  process s h xs =
      let (pushed, b) = push h.buffer xs in
      if pushed
      then examine s (record h { buffer = b }) h.buffer.used
      else returns (s, fail (record h { buffer = b }), aborts, [])
