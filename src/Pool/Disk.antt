-- ===== src/Pool/Disk.antt =====
-- projects/concurrent_buffer_pool_manager/disk_manager.hpp, over pages of any type: `zeros` is the
-- page that a read past the end of the file gives. `pwrite` and `pread` are taken to transfer whole
-- pages; the exception of a short write is not modelled, nor are the opening and closing of the file.
use cpp_interview.Prelude.{ℕ, ◌+◌, ◌≡◌, none, some, ◌==◌, if◌then◌else◌, arith}
use cpp_interview.Prelude.Dict.{Dict, find, assign, find-assign}

pub record DiskManager (P : Type 0) : Type 0 where
  pub stored : Dict P
  pub next_page_id : ℕ

module _ {P : Type 0} where
  unfoldable pub write_page : DiskManager P → ℕ → P → DiskManager P
  write_page d page_id page = record d { stored = assign page_id page d.stored }

  unfoldable pub read_page : P → DiskManager P → ℕ → P
  read_page zeros d page_id = elim (find page_id d.stored) [ none ↦ zeros | some page ↦ page ]

  unfoldable pub allocate_page : DiskManager P → ℕ × DiskManager P
  allocate_page d = (d.next_page_id, record d { next_page_id = d.next_page_id + 1 })

  pub read_page-write_page :
      (zeros : P) (d : DiskManager P) (i j : ℕ) (page : P)
      → read_page zeros (write_page d i page) j ≡ (if i == j then page else read_page zeros d j)
  unfolding read_page write_page
  read_page-write_page zeros d i j page = ground (arith, find-assign i j page d.stored)
