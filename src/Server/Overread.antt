-- ===== src/Server/Overread.antt =====
-- A request that leaves no room for its terminator, as the session handlers hand it to the request
-- processor.
use kexplorer_server.Registry.{Registry}
