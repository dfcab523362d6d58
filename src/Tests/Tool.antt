-- ===== src/Tests/Tool.antt =====
-- Runs of the tool kesctl and of the helpers of its main program.
use kexplorer_server.Prelude.{
  ℕ, zero, suc, ◌<◌, ◌≡◌, refl, true, false, some, [], ◌∷◌, ◌++◌, take, ◌==◌, arith,
}
use kexplorer_server.Prelude.Text.{codes}
use kexplorer_server.Prelude.Numerals.{digits_onto, decimal}
use kexplorer_server.Buffer.{create}
use kexplorer_server.Buffer.Inv.{IsValid}
use kexplorer_server.Buffer.Push.{bound}
use kexplorer_server.Buffer.Refine.{create-IsValid}
use kexplorer_server.Session.{scan, scan_byte}
use kexplorer_server.Session.Chunks.{is_complete}
use kexplorer_server.Client.{Client, Phase, process, command, on_write, receive}
use kexplorer_server.Client.Spec.{IsOpen, view, react, Receives}
use kexplorer_server.Client.Framing.{process-Receives}
use kexplorer_server.Client.Exchange.{Response, Done, exchange}
use kexplorer_server.Client.Connect.{Socket, is_connected, command_to, AllRefuse, command_to-first}
use kexplorer_server.FixedString.{make, compare}
use kexplorer_server.FixedString.Order.{lexicographic, compare-make}
use kexplorer_server.Address.{split_address}
use kexplorer_server.Address.RoundTrip.{Form, Has, split_address-print, split_address_bounds}

-- A tool with a buffer of four bytes that may grow to eight.
abbrev pub tool : Client
tool = record {
  stop = false;
  buffer = create 4 8;
  json_depth = 0;
  json_depth_max = 0;
  phase = Phase.idle;
  out = [];
}

pub tool-IsValid : IsValid tool.buffer
tool-IsValid = create-IsValid 4 8 (omega arith) (omega arith)

tool-IsOpen : IsOpen tool
unfolding create
tool-IsOpen = record { valid = tool-IsValid; ordered = omega arith; counted = omega arith }

process-Receives_example :
    Receives
      (bound tool.buffer)
      tool.out
      (process tool (codes "{}"))
      (react (bound tool.buffer) (view tool) (codes "{}"))
process-Receives_example = process-Receives tool (codes "{}") tool-IsOpen (omega arith)

pub reply-Response : Response (codes "{}")
unfolding scan scan_byte
reply-Response = record { valid = refl; complete = refl; single = early }
  where
    early : (k : ℕ) → k < 2 → is_complete (scan (take k (codes "{}")) 0 0) ≡ false
    early zero h = refl
    early (suc zero) h = refl
    early (suc (suc k)) h = absurd (omega arith)

-- The response comes byte by byte.
exchange_example :
    (d : Client) × (command true (codes "version") tool ≡ some d)
    × Done tool.out (codes "{}") (receive (on_write true d) (codes "{" ∷ codes "}" ∷ []))
unfolding create
exchange_example =
    exchange tool (codes "version") (codes "{}") (codes "{" ∷ codes "}" ∷ []) refl tool-IsValid
      reply-Response (omega arith) refl

compare-make_example :
    compare (make 3 (codes "abcdef")) (codes "abd") ≡ lexicographic (codes "abc") (codes "abd")
compare-make_example = compare-make 3 (codes "abcdef") (codes "abd") (omega arith) (omega arith)

split_address-print_example : split_address (codes "1.2:" ++ decimal 80) ≡ some (codes "1.2", 80)
split_address-print_example =
    split_address-print Form.v4 (codes "1.2") 80 (Has.there Has.here) (omega arith) (omega arith)

split_address_bounds_example : (0 < 80) × (80 < 65536) × (3 < 6)
unfolding decimal digits_onto
split_address_bounds_example =
    split_address_bounds (codes "1.2" ++ (b':' ∷ decimal 80)) (codes "1.2") 80
      split_address-print_example

-- Of two endpoints, the second accepts.
command_to-first_example :
    command_to
      (λ e. e.1 == 2)
      Socket.closed
      ((codes "a", 1) ∷ (codes "b", 2) ∷ [])
      (codes "version")
      tool
    ≡ (Socket.connected_to (codes "b", 2), command true (codes "version") tool)
unfolding is_connected
command_to-first_example =
    command_to-first (λ e. e.1 == 2) Socket.closed (codes "b", 2) [] (codes "version") tool refl
      refl (AllRefuse.cons refl AllRefuse.nil) refl
