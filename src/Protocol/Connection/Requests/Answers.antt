-- ===== src/Protocol/Connection/Requests/Answers.antt =====
-- lib/protocol/protocol.go: the requests of a connection against what each of them is to get.
use syncthing_mem.Protocol.Connection.Requests.{Requests}
use syncthing_mem.Protocol.Connection.Requests.Tracks.{Tracks}
