-- ===== src/Tail/Tests.antt =====
-- A file of five bytes, written out in portions.
use sys_programming_explorat.Base.{
  ℕ, ◌≡◌, refl, Bool, true, List, [], ◌∷◌, ◌++◌, some, arith, pos, take, ◌+◌, ◌<◌, ap, sym, ◌∙◌,
  drop, length, length-drop, drop-drop,
}
use sys_programming_explorat.LineStream.{Device, Reading, got}
use sys_programming_explorat.LineStream.OneByOne.{one_by_one, one_by_one-IsStream}
use sys_programming_explorat.Tail.{
  Sink, Host, Event, on_modified, follow, main, defensive_write, write_till_eof,
}
use sys_programming_explorat.Tail.ReadAll.{Reads, IsFile}
use sys_programming_explorat.Tail.Following.{
  appended, cut_down, nothing, then_effect, Changes, IsHost, follow-Followed,
}
use sys_programming_explorat.Tail.Copying.{IsSink, EndedBy, Written, write_till_eof-Ends}

-- A pipe that takes one byte at a time.
abbrev drip : Sink (List ℕ)
drip bs out = (some 1, out ++ take 1 bs)

drip-IsSink : IsSink (λ l. l) drip
drip-IsSink b bs out = (omega arith, omega arith, refl)

write_till_eof-three :
    write_till_eof drip one_by_one (pos 3) 4 (7 ∷ 8 ∷ 9 ∷ []) (6 ∷ [])
    ≡ some (true, [], 6 ∷ 7 ∷ 8 ∷ 9 ∷ [])
unfolding write_till_eof defensive_write
write_till_eof-three = refl

write_till_eof-Ends_example :
    (went : Bool) × (s : List ℕ) × (out : List ℕ) × (write_till_eof drip one_by_one
        (pos 3)
        4
        (7 ∷ 8 ∷ 9 ∷ [])
        (6 ∷ [])
      ≡ some (went, s, out))
    × Written (6 ∷ []) (7 ∷ 8 ∷ 9 ∷ []) went out
    × EndedBy (λ l. l) drip one_by_one (pos 3) went s out
write_till_eof-Ends_example =
    write_till_eof-Ends (λ l. l) drip drip-IsSink (λ l. l) one_by_one (pos 3) 4 (7 ∷ 8 ∷ 9 ∷ [])
      (6 ∷ []) one_by_one-IsStream (omega arith)

-- A regular file: its bytes, and the offset of the descriptor.
record File : Type 0 where
  bytes : List ℕ
  at : ℕ

-- A read of one byte.
abbrev read_one : File → List ℕ → Reading × File
read_one f [] = (got [], f)
read_one f (b ∷ bs) = (got (b ∷ []), record f { at = f.at + 1 })

abbrev file_device : Device File
file_device fd n f = read_one f (drop f.at f.bytes)

read_one-Reads :
    (n : ℕ) (f : File) (rest : List ℕ)
    → drop f.at f.bytes ≡ rest
    → 0 < n
    → Reads (λ f. f.bytes) (λ f. f.at) n f (read_one f rest)
read_one-Reads n f [] e p = (refl, refl, omega (arith, ap length e, length-drop f.at f.bytes))
read_one-Reads n f (b ∷ bs) e p = (
  refl,
  refl,
  omega arith,
  e ∙ ap (◌∷◌ b) (sym (ap (drop 1) e) ∙ drop-drop f.at 1 (f.at + 1) f.bytes refl),
)

file_device-IsFile : IsFile (λ f. f.bytes) (λ f. f.at) file_device
file_device-IsFile fd n f p = read_one-Reads n f (drop f.at f.bytes) refl p

abbrev host : Host File
host = record {
  inotify_init = pos 4;
  inotify_add_watch = λ fd path. pos 1;
  open_path = λ path. (pos 5, record { bytes = 1 ∷ 2 ∷ []; at = 0 });
  seek_end = λ f. some (record f { at = length f.bytes });
  stat_size = λ f. some (length f.bytes);
  seek_current = λ f. some f.at;
  seek_start = λ f. record f { at = 0 };
}

host-IsHost : IsHost (λ f. f.bytes) (λ f. f.at) host
host-IsHost = record { sized = λ f. refl; current = λ f. refl; restart = λ f. (refl, refl) }

-- The byte 3 is appended, then the file is cut down to the byte 7.
abbrev append_3 : File → File
append_3 f = record f { bytes = f.bytes ++ 3 ∷ [] }

abbrev cut_to_7 : File → File
cut_to_7 f = record f { bytes = 7 ∷ [] }

abbrev events : List (Event File)
events = (some (pos 1), append_3) ∷ (some (pos 1), cut_to_7) ∷ []

events-Changes : Changes (λ f. f.bytes) (λ f. f.at) (pos 1) (1 ∷ 2 ∷ []) events (3 ∷ 7 ∷ [])
events-Changes =
    then_effect (1 ∷ 2 ∷ []) append_3 (appended (3 ∷ [])) ((some (pos 1), cut_to_7) ∷ []) (7 ∷ [])
      tt (λ f e. (ap (λ l. l ++ 3 ∷ []) e, refl))
      (then_effect (1 ∷ 2 ∷ 3 ∷ []) cut_to_7 (cut_down (7 ∷ [])) [] [] (omega arith)
        (λ f e. (refl, refl)) (nothing (7 ∷ [])))

main-follows :
    main host file_device drip 3 events ((116 ∷ []) ∷ (45 ∷ 102 ∷ []) ∷ (102 ∷ []) ∷ []) []
    ≡ some (some (true, record { bytes = 7 ∷ []; at = 1 }, 3 ∷ 7 ∷ []))
unfolding main follow on_modified write_till_eof defensive_write
main-follows = refl

follow-Followed_example :
    (went : Bool) × (f : File) × (out : List ℕ) × (follow host file_device drip
        (pos 1)
        (pos 5)
        3
        events
        (record { bytes = 1 ∷ 2 ∷ []; at = 2 })
        []
      ≡ some (went, f, out))
    × Written [] (3 ∷ 7 ∷ []) went out
    × EndedBy (λ l. l) drip file_device (pos 5) went f out
follow-Followed_example =
    follow-Followed (λ f. f.bytes) (λ f. f.at) (λ l. l) host host-IsHost file_device
      file_device-IsFile drip drip-IsSink (pos 5) (pos 1) 3 events
      (record { bytes = 1 ∷ 2 ∷ []; at = 2 }) [] (1 ∷ 2 ∷ []) (3 ∷ 7 ∷ []) events-Changes refl refl
      (omega arith)
