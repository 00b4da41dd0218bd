-- ===== src/Support/Client.antt =====
-- RSupport/src/SocketClientAdapter.cpp: the socket of the client. What the operating system answers is
-- an argument of each operation.
use rbase.Base.{ℕ, zero, suc, Bool, true, false, Option, none, some, List, [], ◌∷◌, ◌++◌}
use rbase.Base.Int.{ℤ, pos, negsuc}
use rbase.RCore.{Event, event_ok, transmit_error}
use rbase.Support.{
  Status, could_not_open_socket, connection_failed, io_error, socket_not_open_for_reading,
  other_error, status_ok, updates,
}

-- `m_fd`, with the packets that `rcomm_parse_bytes` was called with.
pub record Client : Type 0 where
  pub fd : ℤ
  pub parsed : List (List ℕ)

abbrev pub new_client : Client
new_client = record { fd = pos 0; parsed = [] }

-- `connect`, for the file descriptor that `socket` gives, if it gives one, and whether the connection
-- succeeds.
unfoldable pub connect : Option ℤ → Bool → Client → Status × Client
connect none connected c = (could_not_open_socket, record c { fd = pos 0 })
connect (some fd) false c = (connection_failed, record c { fd = pos 0 })
connect (some fd) true c = (status_ok, record c { fd = fd })

-- `disconnect`.
pub disconnect : Client → Status × Client
disconnect c = (status_ok, c)

-- The values of `errno` that `service` tells apart.
pub data Errno : Type 0 where
  eagain eio ebadf other_errno : Errno

-- What `read` gives: some bytes, no byte, or -1.
pub data Read : Type 0 where
  received : ℕ → List ℕ → Read
  at_end : Read
  read_failed : Errno → Read

-- `service`.
unfoldable pub service : Read → Client → Status × Client
service (received b bs) c = (updates, record c { parsed = c.parsed ++ (b ∷ bs) ∷ [] })
service at_end c = (status_ok, c)
service (read_failed eagain) c = (status_ok, c)
service (read_failed eio) c = (io_error, c)
service (read_failed ebadf) c = (socket_not_open_for_reading, c)
service (read_failed other_errno) c = (other_error, c)

-- The transmit callback, for whether `write` takes all bytes: the event, and whether it was called.
unfoldable pub transmit : Bool → Client → Event × Bool
transmit takes_all c = by_fd takes_all c.fd
  where
    by_fd : Bool → ℤ → Event × Bool
    by_fd b (pos zero) = (event_ok, false)
    by_fd true (pos (suc n)) = (event_ok, true)
    by_fd false (pos (suc n)) = (transmit_error, true)
    by_fd b (negsuc n) = (event_ok, false)
