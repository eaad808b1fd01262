-- ===== src/LineStream/Lines.antt =====
-- What a line is, apart from buffers: the bytes up to the next newline, or what is left.
use sys_programming_explorat.Base.{ℕ, ◌<◌, ◌≡◌, ◌⊎◌, List, [], ◌∷◌, ◌++◌, none, length}
use sys_programming_explorat.Libc.Search.{memchr}
use sys_programming_explorat.LineStream.{newline}

-- `line` is the first line of `all`, and `rest` what follows: `line` has no newline, and either
-- a newline follows it, or it is a last line that is not empty.
abbrev pub IsLine : List ℕ → List ℕ → List ℕ → Type 0
IsLine all line rest =
    (memchr line newline ≡ none)
    × ((all ≡ line ++ newline ∷ rest) ⊎ ((all ≡ line) × (rest ≡ []) × (0 < length line)))
