-- ===== src/Memory/Counts.antt =====
-- ServerCore/MemoryPool.h and MemoryPool.cpp: one pool, a stack of free blocks with two counters. A
-- block is named by a number; one that the system makes is given. A free block carries the size 0,
-- which `Pop` asserts.
use jam_server_prototype.Common.{
  ℕ, ◌+◌, ◌-◌, ◌≤◌, ◌≡◌, refl, ap, subst, Option, none, some, List, [], ◌∷◌, ◌==◌, if◌then◌else◌,
  length, arith,
}

pub record Block : Type 0 where
  pub ref : ℕ
  pub alloc_size : ℕ

pub record MemoryPool : Type 0 where
  pub free : List Block
  pub use_count : ℕ
  pub reserve_count : ℕ

unfoldable pub push : Block → MemoryPool → MemoryPool
push block p = record {
  free = record block { alloc_size = 0 } ∷ p.free;
  use_count = p.use_count - 1;
  reserve_count = p.reserve_count + 1;
}

-- The result is the block, or `none` if the assertion fails.
pop_from : List Block → ℕ → MemoryPool → Option (Block × MemoryPool)
pop_from [] made p =
    some (record { ref = made; alloc_size = 0 }, record p { use_count = p.use_count + 1 })
pop_from (block ∷ rest) made p =
    if block.alloc_size == 0
    then some (
      block,
      record { free = rest; use_count = p.use_count + 1; reserve_count = p.reserve_count - 1 },
    )
    else none

unfoldable pub pop : ℕ → MemoryPool → Option (Block × MemoryPool)
unfolding pop_from
pop made p = pop_from p.free made p

abbrev pub AllFree : List Block → Type 0
AllFree [] = Unit {0}
AllFree (block ∷ blocks) = (block.alloc_size ≡ 0) × AllFree blocks

-- The counters are right: `reserve_count` is the number of free blocks, which all carry the size 0,
-- and `use_count` the number of blocks handed out.
pub record Counted (out : ℕ) (p : MemoryPool) : Type 0 where
  pub reserved : p.reserve_count ≡ length p.free
  pub used : p.use_count ≡ out
  pub cleared : AllFree p.free

pop_from-Counted :
    (made out : ℕ) (p : MemoryPool) (blocks : List Block)
    → p.free ≡ blocks
    → Counted out p
    → (block : Block) × (p' : MemoryPool) × (pop_from blocks made p ≡ some (block, p'))
      × Counted (out + 1) p'
      × (length p.free ≤ length p'.free + 1)
unfolding pop_from
pop_from-Counted made out p [] e c = (
  _,
  _,
  refl,
  record { reserved = c.reserved; used = omega (arith, c.used); cleared = c.cleared },
  omega arith,
)
pop_from-Counted made out p (block ∷ rest) e c =
    let cleared : AllFree (block ∷ rest) = subst AllFree e c.cleared in
    (
      block,
      record { free = rest; use_count = p.use_count + 1; reserve_count = p.reserve_count - 1 },
      ground arith,
      record {
        reserved = omega (arith, c.reserved, ap length e);
        used = omega (arith, c.used);
        cleared = cleared.1;
      },
      omega (arith, ap length e),
    )

-- `Pop` never fails its assertion and never returns nothing, and counts one more block in use; a
-- `Push` of a block that is out counts one fewer, and one more in reserve.
pub pop-push-Counted :
    (made out : ℕ) (returned : Block) (p : MemoryPool)
    → Counted out p
    → ((block : Block) × (p' : MemoryPool) × (pop made p ≡ some (block, p'))
        × Counted (out + 1) p'
        × (length p.free ≤ length p'.free + 1))
      × (1 ≤ out → Counted (out - 1) (push returned p))
unfolding pop push
pop-push-Counted made out returned p c = (
  pop_from-Counted made out p p.free refl c,
  λ h. record {
    reserved = omega (arith, c.reserved);
    used = omega (arith, c.used);
    cleared = (refl, c.cleared);
  },
)
