-- ===== src/Port/Range.antt =====
-- Which ports the three mains accept.
use sys_programming_explorat.Base.{
  ℕ, zero, suc, ◌≤◌, ◌<◌, ◌≡◌, refl, sym, ap, ◌∙◌, List, [], ◌∷◌, some, arith, ℤ, pos, negsuc,
}
use sys_programming_explorat.Port.Decimal.{strtol}
use sys_programming_explorat.Port.{
  checked_chat_port, checked_port, port_of_args, chat_port_of_args, print_port,
}
use sys_programming_explorat.Port.RoundTrip.{strtol-print_port}

checked_port-some :
    (value : ℤ) (port : ℕ)
    → checked_port value ≡ some port
    → (value ≡ pos port) × (1024 ≤ port) × (port ≤ 65535)
unfolding checked_port
checked_port-some (pos zero) port e = cc e
checked_port-some (pos (suc n)) port e = ground arith
checked_port-some (negsuc n) port e = cc e

-- If main of the threaded or of the single-connection server calls server_loop, there was exactly
-- one argument, and the port is the number that strtol read in it, from 1024 to 65535: the
-- conversion to unsigned short did not change it.
pub port_of_args-some :
    (args : List (List ℕ)) (port : ℕ)
    → port_of_args args ≡ some port
    → ((program : List ℕ) × (arg : List ℕ) × (args ≡ program ∷ arg ∷ [])
        × ((strtol arg).0 ≡ pos port))
      × (1024 ≤ port)
      × (port ≤ 65535)
unfolding port_of_args
port_of_args-some [] port e = cc e
port_of_args-some (program ∷ []) port e = cc e
port_of_args-some (program ∷ arg ∷ []) port e =
    let (value, low, high) = checked_port-some (strtol arg).0 port e in
    ((program, arg, refl, value), low, high)
port_of_args-some (program ∷ arg ∷ extra ∷ args) port e = cc e

-- Every port from 1024 to 65535 that is given by its digits is accepted, and server_loop prints
-- it for getaddrinfo as it was given.
pub port_of_args-print_port :
    (program : List ℕ) (port : ℕ)
    → 1024 ≤ port
    → port ≤ 65535
    → port_of_args (program ∷ print_port port ∷ []) ≡ some port
unfolding port_of_args checked_port
port_of_args-print_port program port low high =
    let (_, _, read) = strtol-print_port port (omega arith) in
    ap (λ r. checked_port r.0) read ∙ checked port low high
  where
    checked : (n : ℕ) → 1024 ≤ n → n ≤ 65535 → checked_port (pos n) ≡ some n
    checked zero low high = absurd (omega arith)
    checked (suc n) low high = ground arith

checked_chat_port-some :
    (given arg : List ℕ) (r : ℤ × List ℕ) (portno : ℤ)
    → checked_chat_port given r ≡ some (arg, portno)
    → (given ≡ arg) × ((n : ℕ) × (portno ≡ pos n) × (r ≡ (pos n, [])) × (1024 < n) × (n < 65535))
unfolding checked_chat_port
checked_chat_port-some given arg (pos n, []) portno e =
    (ground arith, (n, ground arith, refl, ground arith, ground arith))
checked_chat_port-some given arg (negsuc n, []) portno e = cc e
checked_chat_port-some given arg (pos n, c ∷ cs) portno e = cc e
checked_chat_port-some given arg (negsuc n, c ∷ cs) portno e = cc e

-- If main of the chat server asks for a socket, the text that it passes on was read by strtol to
-- its end, and stands for a number above 1024 and below 65535.
pub chat_port_of_args-some :
    (args : List (List ℕ)) (arg : List ℕ) (portno : ℤ)
    → chat_port_of_args args ≡ some (arg, portno)
    → (n : ℕ) × (portno ≡ pos n) × (strtol arg ≡ (pos n, [])) × (1024 < n) × (n < 65535)
unfolding chat_port_of_args
chat_port_of_args-some [] arg portno e = cc e
chat_port_of_args-some (program ∷ []) arg portno e = cc e
chat_port_of_args-some (program ∷ given ∷ args) arg portno e =
    let (same, (n, value, read, low, high)) =
      checked_chat_port-some given arg (strtol given) portno e in
    (n, value, ap strtol (sym same) ∙ read, low, high)
