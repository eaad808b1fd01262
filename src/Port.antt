-- ===== src/Port.antt =====
-- The port on the command line: the first lines of main in the three servers, and the text that
-- server_loop makes of the port for getaddrinfo. A text is the list of its bytes without the null
-- byte at its end, and argv a list of texts.
pub mod Decimal
pub mod RoundTrip
pub mod Range
mod Tests
use sys_programming_explorat.Base.{
  ℕ, zero, suc, ◌+◌, ◌-◌, ◌*◌, ◌/◌, ◌%◌, ◌^◌, List, [], ◌∷◌, Bool, true, false, ◌&&◌, ◌||◌, Option,
  none, some, ltb, leb, ◌==◌, if◌then◌else◌, ℤ, pos, negsuc, length, take,
}
use sys_programming_explorat.Port.Decimal.{strtol}

-- `port < 1024`
abbrev pub below_1024 : ℤ → Bool
below_1024 (pos n) = ltb n 1024
below_1024 (negsuc n) = true

-- `port > 65535`
abbrev pub above_65535 : ℤ → Bool
above_65535 (pos n) = ltb 65535 n
above_65535 (negsuc n) = false

-- The conversion to unsigned short of a number that is not negative.
abbrev pub to_ushort : ℤ → ℕ
to_ushort (pos n) = n % 2 ^ 16
to_ushort (negsuc n) = (2 ^ 16 - 1 - n % 2 ^ 16) % 2 ^ 16

-- What main makes of the value that strtol answers; `none` is the end of the process.
pub checked_port : ℤ → Option ℕ
checked_port (pos zero) = none
checked_port (pos (suc n)) =
    if below_1024 (pos (suc n)) || above_65535 (pos (suc n))
    then none
    else some (to_ushort (pos (suc n)))
checked_port (negsuc n) =
    if below_1024 (negsuc n) || above_65535 (negsuc n) then none else some (to_ushort (negsuc n))

-- main of tcp_pthread.c and of single_connection_server.c, up to server_loop: the port that it is
-- called with, or the end of the process.
unfoldable pub port_of_args : List (List ℕ) → Option ℕ
unfolding checked_port
port_of_args [] = none
port_of_args (program ∷ []) = none
port_of_args (program ∷ arg ∷ []) = let (port, rest) = strtol arg in checked_port port
port_of_args (program ∷ arg ∷ extra ∷ args) = none

-- `portno <= 1024 || portno >= 65535`
abbrev pub out_of_chat_range : ℤ → Bool
out_of_chat_range (pos n) = leb n 1024 || leb 65535 n
out_of_chat_range (negsuc n) = true

-- `*endptr != '\0'`
abbrev pub is_rest : List ℕ → Bool
is_rest [] = false
is_rest (c ∷ cs) = true

-- What main makes of what strtol answers.
pub checked_chat_port : List ℕ → ℤ × List ℕ → Option (List ℕ × ℤ)
checked_chat_port arg (portno, rest) =
    if is_rest rest || out_of_chat_range portno then none else some (arg, portno)

-- main of tcp/polling/main.c, up to get_tcp_server_socket: the text that it passes on, and the
-- number that it prints.
unfoldable pub chat_port_of_args : List (List ℕ) → Option (List ℕ × ℤ)
unfolding checked_chat_port
chat_port_of_args [] = none
chat_port_of_args (program ∷ []) = none
chat_port_of_args (program ∷ arg ∷ args) = checked_chat_port arg (strtol arg)

-- The digits of a number before `out`, at most `fuel + 1` of them.
pub print_digits : ℕ → ℕ → List ℕ → List ℕ
print_digits zero n out = (48 + n % 10) ∷ out
print_digits (suc fuel) n out =
    let more = print_digits fuel (n / 10) ((48 + n % 10) ∷ out) in
    if ltb n 10 then (48 + n) ∷ out else more

-- `snprintf(portno, 6, "%hu", portno1)`: five digits are enough for an unsigned short, and five
-- bytes and the null byte are what the buffer holds.
unfoldable pub print_port : ℕ → List ℕ
unfolding print_digits
print_port portno1 = take 5 (print_digits 4 (portno1 % 2 ^ 16) [])
