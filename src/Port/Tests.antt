-- ===== src/Port/Tests.antt =====
-- Ports on small command lines.
use sys_programming_explorat.Base.{ℕ, ◌≡◌, ◌≤◌, refl, List, [], ◌∷◌, none, some, arith, pos, negsuc}
use sys_programming_explorat.Port.Decimal.{strtol, scan_digits}
use sys_programming_explorat.Port.{port_of_args, chat_port_of_args, print_port}
use sys_programming_explorat.Port.Range.{port_of_args-some, port_of_args-print_port}

abbrev text_8080 : List ℕ
text_8080 = 56 ∷ 48 ∷ 56 ∷ 48 ∷ []

-- " -12x"
strtol-signed : strtol (32 ∷ 45 ∷ 49 ∷ 50 ∷ 120 ∷ []) ≡ (negsuc 11, 120 ∷ [])
unfolding strtol scan_digits
strtol-signed = refl

-- The two servers that do not look at the rest accept "8080x"; the chat server does not.
trailing_text :
    (port_of_args ([] ∷ (56 ∷ 48 ∷ 56 ∷ 48 ∷ 120 ∷ []) ∷ []) ≡ some 8080)
    × (chat_port_of_args ([] ∷ (56 ∷ 48 ∷ 56 ∷ 48 ∷ 120 ∷ []) ∷ []) ≡ none)
unfolding port_of_args chat_port_of_args strtol scan_digits
trailing_text = (refl, refl)

port_of_args-some_example :
    ((program : List ℕ) × (arg : List ℕ) × (◌≡◌ {A = List (List ℕ)}
        ([] ∷ text_8080 ∷ [])
        (program ∷ arg ∷ []))
      × ((strtol arg).0 ≡ pos 8080))
    × (1024 ≤ 8080)
    × (8080 ≤ 65535)
unfolding port_of_args strtol scan_digits
port_of_args-some_example = port_of_args-some ([] ∷ text_8080 ∷ []) 8080 refl

port_of_args-print_port_example : port_of_args ([] ∷ print_port 8080 ∷ []) ≡ some 8080
port_of_args-print_port_example = port_of_args-print_port [] 8080 (omega arith) (omega arith)
