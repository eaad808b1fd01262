-- ===== src/Cat/Tests.antt =====
-- A file of three bytes, copied.
use sys_programming_explorat.Base.{
  ℕ, ◌≡◌, refl, Bool, true, List, [], ◌∷◌, ◌++◌, some, arith, pos, length, take, drop,
}
use sys_programming_explorat.LineStream.{Device, got}
use sys_programming_explorat.LineStream.OneByOne.{one_by_one, one_by_one-IsStream}
use sys_programming_explorat.Tail.{Sink}
use sys_programming_explorat.Tail.Copying.{Written}
use sys_programming_explorat.Cat.{copy_loop, main}
use sys_programming_explorat.Cat.Copying.{EndedBy, copy_loop-Ends}

abbrev terminal : Sink (List ℕ)
terminal bs out = (some (length bs), out ++ bs)

-- A pipe with room for one byte at a time: the second byte of each portion is lost.
abbrev narrow : Sink (List ℕ)
narrow bs out = (some 1, out ++ take 1 bs)

abbrev two_by_two : Device (List ℕ)
two_by_two fd n s = (got (take 2 s), drop 2 s)

copy_loop-narrow :
    copy_loop two_by_two narrow (pos 3) 3 (7 ∷ 8 ∷ 9 ∷ []) [] ≡ some (true, [], 7 ∷ 9 ∷ [])
unfolding copy_loop
copy_loop-narrow = refl

copy_loop-Ends_example :
    (went : Bool) × (s : List ℕ) × (out : List ℕ) × (copy_loop one_by_one terminal
        (pos 3)
        4
        (7 ∷ 8 ∷ 9 ∷ [])
        (6 ∷ [])
      ≡ some (went, s, out))
    × Written (6 ∷ []) (7 ∷ 8 ∷ 9 ∷ []) went out
    × EndedBy (λ l. l) (λ l. l) one_by_one terminal (pos 3) went s
copy_loop-Ends_example =
    copy_loop-Ends (λ l. l) (λ l. l) one_by_one terminal (pos 3) 4 (7 ∷ 8 ∷ 9 ∷ []) (6 ∷ [])
      one_by_one-IsStream (λ b bs out. refl) (omega arith)

-- The file is opened where the path does not begin with a dash.
main-opens :
    main one_by_one terminal (λ path. (pos 3, 7 ∷ [])) (8 ∷ []) 2 ([] ∷ (102 ∷ []) ∷ []) []
    ≡ some (some (true, [], 7 ∷ []))
unfolding main copy_loop
main-opens = refl

main-stdin :
    main one_by_one terminal (λ path. (pos 3, 7 ∷ [])) (8 ∷ []) 2 ([] ∷ (45 ∷ []) ∷ []) []
    ≡ some (some (true, [], 8 ∷ []))
unfolding main copy_loop
main-stdin = refl
