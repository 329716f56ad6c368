-- ===== src/Memory/Stomp.antt =====
-- ServerCore/Allocator.cpp, `StompAllocator`: a block is put at the end of its own pages, so that an
-- access beyond it faults. Addresses are numbers; `VirtualAlloc` is outside, and gives pages at a page
-- boundary.
use jam_server_prototype.Common.{ℕ, ◌+◌, ◌-◌, ◌*◌, ◌/◌, ◌%◌, ◌≤◌, ◌<◌, ◌≡◌, arith}

abbrev pub page_size : ℕ
page_size = 4096

unfoldable pub page_count : ℕ → ℕ
page_count size = (size + page_size - 1) / page_size

-- The block's address, from the address that `VirtualAlloc` gave.
unfoldable pub alloc : ℕ → ℕ → ℕ
unfolding page_count
alloc base size = base + (page_count size * page_size - size)

-- The address that `Release` gives to `VirtualFree`.
unfoldable pub release : ℕ → ℕ
release address = address - address % page_size

-- For a block of at least one byte: it lies in the pages that were reserved for it and ends where
-- they end, the pages are no more than it needs, and a release frees the address that the system gave.
pub release-alloc :
    (base size : ℕ)
    → base % page_size ≡ 0
    → 0 < size
    → (base ≤ alloc base size)
      × (alloc base size + size ≡ base + page_count size * page_size)
      × (page_count size * page_size < size + page_size)
      × (release (alloc base size) ≡ base)
unfolding alloc release page_count
release-alloc base size aligned some_bytes = omega arith
