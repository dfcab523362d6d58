-- ===== src/Client/Connect.antt =====
-- src/kesctl/client.cxx: the endpoints of the tool, the connection to one of them, and its end. Which names
-- resolve, which endpoints accept and what `shutdown` finds is an argument.
use kexplorer_server.Prelude.{
  ℕ, ◌≡◌, refl, Bool, true, false, Option, none, some, List, [], ◌∷◌, ◌++◌, if◌then◌else◌,
}
use kexplorer_server.Prelude.Outcome.{Outcome, returns, terminates}
use kexplorer_server.Prelude.Text.{Str}
use kexplorer_server.Client.{Client, command}

-- An address and a port.
abbrev pub Endpoint : Type 0
Endpoint = Str × ℕ

-- `m_socket`: none, or one that is closed or open.
pub data Socket : Type 0 where
  absent closed : Socket
  connected_to : Endpoint → Socket

unfoldable pub is_connected : Socket → Bool
is_connected (Socket.connected_to e) = true
is_connected s = false

-- The loop of the constructor.
unfoldable pub endpoints_at : ℕ → List Str → List Endpoint
endpoints_at port [] = []
endpoints_at port (a ∷ rest) = (a, port) ∷ endpoints_at port rest

-- The constructor's part on the network; `none`: the name does not resolve, and it throws.
unfoldable pub resolve_all : ℕ → Option (List Str) → Option (List Endpoint)
unfolding endpoints_at
resolve_all port none = none
resolve_all port (some addresses) = some (endpoints_at port addresses)

module _ (accepts : Endpoint → Bool) where
  -- The loop of `checkConnection`, with the socket so far.
  unfoldable pub try_all : Socket → List Endpoint → Socket × Bool
  try_all s [] = (s, false)
  try_all s (e ∷ rest) =
      let later = try_all Socket.absent rest in
      if accepts e then (Socket.connected_to e, true) else later

  unfoldable pub check_connection : Socket → List Endpoint → Socket × Bool
  unfolding is_connected try_all
  check_connection s endpoints = if is_connected s then (s, true) else try_all s endpoints

  -- `command`, with the socket that it leaves; `none`: it throws.
  unfoldable pub command_to : Socket → List Endpoint → Str → Client → Socket × Option Client
  unfolding check_connection
  command_to s endpoints cmd c =
      if c.stop
      then (s, some c)
      else (let (s', ok) = check_connection s endpoints in (s', command ok cmd c))

-- `~Client`, which is `noexcept`: `shutdown` throws on a socket that is not connected any more.
unfoldable pub close_client : Bool → Socket → Outcome Socket
close_client alive (Socket.connected_to e) = if alive then returns Socket.closed else terminates
close_client alive s = returns s

-- The endpoints that refuse.
pub data AllRefuse (accepts : Endpoint → Bool) : List Endpoint → Type 0 where
  nil : AllRefuse accepts []
  cons :
      {e : Endpoint} {rest : List Endpoint}
      → accepts e ≡ false
      → AllRefuse accepts rest
      → AllRefuse accepts (e ∷ rest)

module _ (accepts : Endpoint → Bool) where
  try_all-refused :
      (s : Socket) {es : List Endpoint} → AllRefuse accepts es → (try_all accepts s es).1 ≡ false
  unfolding try_all
  try_all-refused s AllRefuse.nil = refl
  try_all-refused s (AllRefuse.cons no_one rest) = rw no_one (try_all-refused Socket.absent rest)

  try_all-first :
      (s : Socket) {es : List Endpoint} (e : Endpoint) (rest : List Endpoint)
      → AllRefuse accepts es
      → accepts e ≡ true
      → try_all accepts s (es ++ (e ∷ rest)) ≡ (Socket.connected_to e, true)
  unfolding try_all
  try_all-first s e rest AllRefuse.nil k = rw k refl
  try_all-first s e rest (AllRefuse.cons no_one more) k =
      rw no_one (try_all-first Socket.absent e rest more k)

  -- A tool that has not been stopped and is not connected sends its command over a connection to
  -- the first of its endpoints that accepts, whichever refuse before it.
  pub command_to-first :
      (s : Socket) {es : List Endpoint} (e : Endpoint) (rest : List Endpoint) (cmd : Str)
      (c : Client)
      → is_connected s ≡ false
      → c.stop ≡ false
      → AllRefuse accepts es
      → accepts e ≡ true
      → command_to accepts s (es ++ (e ∷ rest)) cmd c ≡ (Socket.connected_to e, command true cmd c)
  unfolding command_to check_connection
  command_to-first s e rest cmd c apart go refuse k =
      rw (go, apart, command_to, try_all-first s e rest refuse k) refl
