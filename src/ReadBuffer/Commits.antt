-- ===== src/ReadBuffer/Commits.antt =====
-- readbuffer__commit_write of any size, on a buffer that was written to through its cursor.
use sys_programming_explorat.Base.{
  ℕ, ◌≤◌, ◌≡◌, ◌∙◌, List, ◌++◌, append-nil, arith, length, take, drop, refl, length-blit,
  slice-blit_over, ◌+◌,
}
use sys_programming_explorat.ReadBuffer.{ReadBuffer, success, commit_write, get_write_cursor_limit}
use sys_programming_explorat.ReadBuffer.Validity.{
  IsValid, contents, written, commit_write_exact, get_write_cursor_limit_exact,
}

-- What stands behind `n` bytes that are written through the cursor.
abbrev pub behind : ReadBuffer → ℕ → List ℕ
behind rb n = drop (rb.offset + rb.length + n) rb.bytes

pub limit_written :
    (rb : ReadBuffer) (bs : List ℕ)
    → get_write_cursor_limit (written rb bs) ≡ get_write_cursor_limit rb
unfolding get_write_cursor_limit
limit_written rb bs = refl

-- What is only written stays behind what can be read.
pub written-IsValid :
    {rb : ReadBuffer} (bs : List ℕ)
    → IsValid rb
    → length bs ≤ get_write_cursor_limit rb
    → IsValid (written rb bs) × (contents (written rb bs) ≡ contents rb)
written-IsValid {rb} bs v h =
    let room : rb.offset + rb.length + length bs ≤ length rb.bytes =
      omega (arith, get_write_cursor_limit_exact v) in
    (
      record {
        fits = v.fits;
        small = v.small;
        stored = length-blit rb.bytes (rb.offset + rb.length) bs room ∙ v.stored;
        backed = v.backed;
      },
      slice-blit_over rb.bytes rb.offset rb.length rb.length 0 bs room (omega arith)
          ∙ append-nil (contents rb),
    )

-- A commit of `k` bytes within the limit appends them.
pub commit_write_part :
    {rb : ReadBuffer} (bs : List ℕ) (k : ℕ)
    → IsValid rb
    → length bs ≤ get_write_cursor_limit rb
    → k ≤ get_write_cursor_limit rb
    → let (r, rb') = commit_write (written rb bs) k in
      (r ≡ success)
      × (contents rb' ≡ contents rb ++ take k (bs ++ behind rb (length bs)))
      × IsValid rb'
commit_write_part {rb} bs k v h p =
    let w : ReadBuffer = written rb bs in
    let (v', _) = written-IsValid bs v h in
    let room : rb.offset + rb.length + length bs ≤ length rb.bytes =
      omega (arith, get_write_cursor_limit_exact v) in
    rw (commit_write_exact k v' (omega (arith, limit_written rb bs))) (
      refl,
      slice-blit_over rb.bytes rb.offset rb.length (rb.length + k) k bs room refl,
      record {
        fits = omega (arith, get_write_cursor_limit_exact v);
        small = v.small;
        stored = v'.stored;
        backed = v.backed;
      },
    )
