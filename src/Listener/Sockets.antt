-- ===== src/Listener/Sockets.antt =====
-- internal/listener/tcp and internal/listener/hashivault: how a socket is opened, how connections
-- are accepted, and how it is closed.
use reloader.Prelude.{
  ℕ, String, Bool, true, false, Option, none, some, List, [], ◌∷◌, Result, ok, err, if◌then◌else◌,
}
use reloader.Api.{TcpSocketConfig, HashicorpVaultConfig}

-- TCPSocket; `listener` is the address that it listens at, as host and port.
pub record TcpSocket : Type 0 where
  pub config : Option TcpSocketConfig
  pub cancelled : Bool
  pub listener : Option (String × ℕ)

pub data SocketError : Type 0 where
  nil_config : SocketError
  listen_failed : String → SocketError
  close_failed : String → SocketError
  -- A call of a method on a nil interface: a panic.
  nil_listener : SocketError

-- `NewTCPSocketListener`, and the socket of `CreateListener`.
unfoldable pub new_tcp_socket_listener : TcpSocketConfig → TcpSocket
new_tcp_socket_listener config = record { config = some config; cancelled = false; listener = none }

-- The socket of a Vault listener: no path of an identifier, since it has its own process function.
unfoldable pub vault_socket : HashicorpVaultConfig → TcpSocket
unfolding new_tcp_socket_listener
vault_socket config =
    new_tcp_socket_listener
      (record { host = config.host; port = config.port; secret_identifier_on_payload = "" })

-- `listen_fails` is the error of net.Listen, if any.
abbrev listen :
    (String → ℕ → Option String) → Option TcpSocketConfig → TcpSocket → Result SocketError TcpSocket
listen listen_fails none h = err nil_config
listen listen_fails (some config) h = elim (listen_fails config.host config.port) [
  | some e ↦ err (listen_failed e)
  | none ↦ ok (record h { listener = some (config.host, config.port) })
]

-- `Start`
unfoldable pub start : (String → ℕ → Option String) → TcpSocket → Result SocketError TcpSocket
start listen_fails h = listen listen_fails h.config h

abbrev close : Option String → Option (String × ℕ) → Result SocketError (Unit {0})
close close_fails none = err nil_listener
close none (some _) = ok tt
close (some e) (some _) = err (close_failed e)

-- `Stop`: the state that it leaves, and how closing the listener ends.
unfoldable pub stop : Option String → TcpSocket → TcpSocket × Result SocketError (Unit {0})
stop close_fails h = (record h { cancelled = true }, close close_fails h.listener)

-- What `Accept` returns; a deadline of a second makes it time out.
pub data Accepted (C : Type 0) : Type 0 where
  connection : C → Accepted C
  timed_out : Accepted C
  failed : Accepted C

-- A turn of the loop that accepts: whether the context has ended before it, and after an error.
pub record AcceptTurn (C : Type 0) : Type 0 where
  pub ended : Bool
  pub accepted : Accepted C
  pub ended_later : Bool

-- `handleConnection`: the connections that it hands to `readMessage`, in order.
unfoldable pub handle_connection : {C : Type 0} → List (AcceptTurn C) → List C
handle_connection [] = []
handle_connection (t ∷ ts) =
    let rest = handle_connection ts in
    if t.ended then [] else elim t.accepted [
      | connection c ↦ c ∷ rest
      | timed_out ↦ rest
      | failed ↦ if t.ended_later then [] else rest
    ]
