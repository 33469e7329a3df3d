-- ===== src/Socket/Tcp/Sending.antt =====
-- What `TcpSocket::sendFile` makes of the answers of the system.
use network_learn.Base.{zero, suc, List}
use network_learn.Socket.Tcp.{WriteAnswer, takes, write_fails}

-- The answers that let the loop of `sendFile` go on, whose calls of the system ask for what is left.
abbrev pub IsPart : WriteAnswer → Type 0
IsPart (takes zero) = ⊥
IsPart (takes (suc n)) = Unit
IsPart (write_fails e) = ⊥
