-- ===== src/ListenSocket/Tests.antt =====
-- The listening sockets of a system with two addresses, of which the first cannot be opened.
use sys_programming_explorat.Base.{◌≡◌, refl, [], ◌∷◌, true, some, pos, negsuc}
use sys_programming_explorat.Posix.{Event}
use sys_programming_explorat.ListenSocket.Sample.{sample, port_8080}
use sys_programming_explorat.ListenSocket.{
  get_listening_socket, get_tcp_server_socket, start_single_server, bind_address,
}
use sys_programming_explorat.ListenSocket.Ownership.{
  Balanced, Bound, Listening, get_listening_socket-Listening, get_tcp_server_socket-Bound,
}
use sys_programming_explorat.ListenSocket.Single.{Started, start_single_server-Started}

get_listening_socket-sample : get_listening_socket sample port_8080 [] ≡ (
  some (pos 3),
  Event.listen (pos 3) 4096 true
      ∷ Event.freeaddrinfo
      ∷ Event.bind (pos 3) 1 true
      ∷ Event.setsockopt (pos 3)
      ∷ Event.socket 1 (pos 3)
      ∷ Event.socket 0 (negsuc 0)
      ∷ Event.getaddrinfo port_8080 (some (0 ∷ 1 ∷ []))
      ∷ [],
)
unfolding get_listening_socket
get_listening_socket-sample = refl

get_listening_socket-Listening_example :
    Balanced [] (get_listening_socket sample port_8080 []).1
    × Listening sample (get_listening_socket sample port_8080 [])
get_listening_socket-Listening_example = get_listening_socket-Listening sample port_8080 []

get_tcp_server_socket-Bound_example :
    (get_tcp_server_socket sample port_8080 [] ≡ bind_address sample port_8080 [])
    × Balanced [] (get_tcp_server_socket sample port_8080 []).1
    × Bound sample (get_tcp_server_socket sample port_8080 [])
get_tcp_server_socket-Bound_example = get_tcp_server_socket-Bound sample port_8080 []

start_single_server-Started_example : Started sample [] (start_single_server sample port_8080 [])
start_single_server-Started_example = start_single_server-Started sample port_8080 []
