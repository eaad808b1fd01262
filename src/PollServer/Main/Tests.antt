-- ===== src/PollServer/Main/Tests.antt =====
-- The chat server on port 8080 of a small system.
use sys_programming_explorat.Base.{◌≡◌, refl, [], ◌∷◌, none}
use sys_programming_explorat.Port.{chat_port_of_args}
use sys_programming_explorat.Port.Decimal.{strtol}
use sys_programming_explorat.ListenSocket.Sample.{sample}
use sys_programming_explorat.PollServer.Sample.{plain, busy}
use sys_programming_explorat.PollServer.Main.{main}
use sys_programming_explorat.PollServer.Main.Started.{Started}

-- Port 80 is refused.
main-port_80 : main plain busy sample 1 ([] ∷ (56 ∷ 48 ∷ []) ∷ []) 0 0 [] ≡ (none, [])
unfolding main chat_port_of_args strtol
main-port_80 = refl
