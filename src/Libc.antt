-- ===== src/Libc.antt =====
-- What the program takes from the C library's allocator: malloc, calloc and free.
-- The answers are a parameter. The bookkeeping of live blocks lets a theorem speak of leaks.
pub mod Search
pub mod Memmem
use sys_programming_explorat.Base.{
  ℕ, ◌+◌, Bool, List, [], ◌∷◌, Option, none, some, ◌==◌, if◌then◌else◌,
}

-- How the allocator answers the request number `k`, for `n` bytes, and what the bytes of its block
-- hold before they are written.
pub record Allocator : Type 0 where
  pub grants : ℕ → ℕ → Bool
  pub junk : ℕ → ℕ → ℕ

-- The requests made so far, and the blocks that were handed out and not freed, the latest first.
-- A block is named by the number of its request.
pub record Heap : Type 0 where
  pub requests : ℕ
  pub live : List ℕ

unfoldable pub remove : ℕ → List ℕ → List ℕ
remove p [] = []
remove p (q ∷ qs) = if q == p then qs else q ∷ remove p qs

-- `none` is NULL.
unfoldable pub malloc : Allocator → ℕ → Heap → Option ℕ × Heap
malloc a n h =
    if a.grants h.requests n
    then (some h.requests, record { requests = h.requests + 1; live = h.requests ∷ h.live })
    else (none, record h { requests = h.requests + 1 })

unfoldable pub free : Option ℕ → Heap → Heap
unfolding remove
free none h = h
free (some p) h = record h { live = remove p h.live }
