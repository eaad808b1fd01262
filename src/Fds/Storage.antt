-- ===== src/Fds/Storage.antt =====
-- The blocks of fds_state__init and fds_state__destroy: of the structure and of its array.
use sys_programming_explorat.Base.{ℕ, ◌*◌, ◌≡◌, Option, none, some, arith}
use sys_programming_explorat.Libc.{Allocator, Heap, malloc, free, remove}
use sys_programming_explorat.Fds.{default_fds_capacity, sizeof_fds, sizeof_pollfd}

pub record Blocks : Type 0 where
  pub fdstate : ℕ
  pub fds : Option ℕ

-- `none` is err_exit; the structure is freed before it where there is no array.
unfoldable pub init_blocks : Allocator → Heap → Option Blocks × Heap
unfolding malloc free
init_blocks a h =
    let (struct_block, h') = malloc a sizeof_fds h in
    elim struct_block [
      | none ↦ (none, h')
      | some fdstate ↦
          let (array_block, h'') = malloc a (sizeof_pollfd * default_fds_capacity) h' in
          elim array_block [
            | none ↦ (none, free (some fdstate) h'')
            | some fds ↦ (some (record { fdstate = fdstate; fds = some fds }), h'')
          ]
    ]

unfoldable pub destroy : Option Blocks → Heap → Heap
unfolding free
destroy none h = h
destroy (some blocks) h = free (some blocks.fdstate) (free blocks.fds h)

-- Behind init and destroy the live blocks are those from before, also where an allocation failed.
pub destroy-init_blocks :
    (a : Allocator) (h : Heap)
    → let (blocks, h') = init_blocks a h in (destroy blocks h').live ≡ h.live
unfolding init_blocks destroy malloc free remove
destroy-init_blocks a h = ground arith
