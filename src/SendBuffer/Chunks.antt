-- ===== src/SendBuffer/Chunks.antt =====
-- Buffers of one chunk do not overlap, and a buffer that fits a chunk can always be opened.
use jam_server_prototype.Common.{
  ℕ, ◌+◌, ◌≤◌, ◌<◌, ◌≡◌, refl, sym, ap, subst, ◌∙◌, true, false, Bool-cases, Option, none, some,
  List, [], ◌∷◌, ◌⊎◌, inl, inr, ltb, arith,
}
use jam_server_prototype.SendBuffer.{
  send_buffer_chunk_size, Chunk, SendBuffer, Result, ok, null, crash, free_size, reset, open_chunk,
  close, Manager, take_chunk, open_on, open_current, current_or_new, open_buffer,
}

-- A chunk in use holds no more than its size.
abbrev pub InBounds : Chunk → Type 0
InBounds c = c.used_size ≤ send_buffer_chunk_size

-- One open and its close: how much is asked for, and how much is written. The result is where the
-- bytes written lie, and the chunk after; there is none if either does not succeed.
unfoldable pub cut_one : ℕ → ℕ → Chunk → Option (ℕ × ℕ × Chunk)
cut_one alloc_size write_size c = elim (open_chunk alloc_size c) [
  | null ↦ none
  | crash ↦ none
  | ok (b, opened) ↦ elim (close write_size b opened) [
    | null ↦ none
    | crash ↦ none
    | ok closed ↦ some (b.offset, b.offset + write_size, closed)
  ]
]

-- A row of them, up to the first that does not succeed.
unfoldable pub cut : List (ℕ × ℕ) → Chunk → List (ℕ × ℕ)
cut [] c = []
cut ((alloc_size, write_size) ∷ rest) c = elim (cut_one alloc_size write_size c) [
  | none ↦ []
  | some (from, to, c') ↦ (from, to) ∷ cut rest c'
]

-- Intervals follow one another from a start, and end by a limit.
abbrev pub Consecutive : ℕ → ℕ → List (ℕ × ℕ) → Type 0
Consecutive start limit [] = start ≤ limit
Consecutive start limit ((from, to) ∷ pieces) =
    (start ≤ from) × (from ≤ to) × Consecutive to limit pieces

closed_after : ℕ → Chunk → Chunk
closed_after write_size c = record c { is_open = false; used_size = c.used_size + write_size }

cut_one_lem :
    (alloc_size write_size : ℕ) (c : Chunk)
    → InBounds c
    → (cut_one alloc_size write_size c ≡ none)
      ⊎ ((cut_one alloc_size write_size c
            ≡ some (c.used_size, c.used_size + write_size, closed_after write_size c))
          × (c.used_size + write_size ≤ send_buffer_chunk_size))
unfolding cut_one open_chunk close closed_after
cut_one_lem alloc_size write_size c h = elim (Bool-cases (ltb send_buffer_chunk_size alloc_size)) [
  | inl e ↦ inl (ground arith)
  | inr e ↦ elim (Bool-cases c.is_open) [
    | inl e2 ↦ inl (ground arith)
    | inr e2 ↦ elim (Bool-cases (ltb (free_size c) alloc_size)) [
      | inl e3 ↦ inl (ground arith)
      | inr e3 ↦ elim (Bool-cases (ltb alloc_size write_size)) [
        | inl e4 ↦ inl (ground arith)
        | inr e4 ↦ inr (ground arith, ground arith)
      ]
    ]
  ]
]

-- Whatever row of opens and closes is made on a chunk, the pieces they write lie one after another
-- from where the chunk was used up to, and end within its 6000 bytes.
pub cut-Consecutive :
    (requests : List (ℕ × ℕ)) (c : Chunk)
    → InBounds c
    → Consecutive c.used_size send_buffer_chunk_size (cut requests c)
unfolding cut closed_after
cut-Consecutive [] c h = h
cut-Consecutive ((alloc_size, write_size) ∷ rest) c h =
    elim (cut_one_lem alloc_size write_size c h) [
      | inl e ↦ rw (e, Consecutive) h
      | inr (e, within) ↦
          rw (e, Consecutive)
            (omega arith, omega arith, cut-Consecutive rest (closed_after write_size c) within)
    ]

record_at : ℕ → Chunk → SendBuffer
record_at size c = record { owner = c.ref; offset = c.used_size; alloc_size = size }

open_on-fits :
    (size : ℕ) (c : Chunk) (m : Manager)
    → c.is_open ≡ false
    → size ≤ send_buffer_chunk_size
    → c.used_size + size ≤ send_buffer_chunk_size
    → open_on size (c, m)
      ≡ ok (record_at size c, record m { current = some (record c { is_open = true }) })
unfolding open_on open_chunk record_at
open_on-fits size c m closed fits room = ground arith

-- What a buffer of this size, opened by a thread whose chunk is `c`, comes to.
abbrev pub Opens : ℕ → Chunk → Result (SendBuffer × Manager) → Type 0
Opens size c result =
    (b : SendBuffer) × (m' : Manager) × (c' : Chunk) × (result ≡ ok (b, m'))
    × (m'.current ≡ some c')
    × (c'.is_open ≡ true)
    × (b.owner ≡ c'.ref)
    × (b.alloc_size ≡ size)
    × (b.offset ≡ c'.used_size)
    × (b.offset + b.alloc_size ≤ send_buffer_chunk_size)
    × (size ≤ free_size c → b.owner ≡ c.ref)

open_taken :
    (size : ℕ) (c : Chunk) (m : Manager)
    → size ≤ send_buffer_chunk_size
    → free_size c < size
    → Opens size c (open_on size (take_chunk m))
unfolding take_chunk reset record_at
open_taken size c m fits full =
    let (taken, m') = take_chunk m in
    (
      record_at size taken,
      record m' { current = some (record taken { is_open = true }) },
      record taken { is_open = true },
      open_on-fits size taken m' refl fits (omega arith),
      refl,
      refl,
      refl,
      refl,
      refl,
      omega arith,
      λ h. omega (arith, full, h),
    )

open_present :
    (size : ℕ) (c : Chunk) (m : Manager)
    → c.is_open ≡ false
    → InBounds c
    → size ≤ send_buffer_chunk_size
    → size ≤ free_size c
    → Opens size c (open_on size (c, m))
unfolding record_at
open_present size c m closed h fits room = (
  record_at size c,
  record m { current = some (record c { is_open = true }) },
  record c { is_open = true },
  open_on-fits size c m closed fits (omega arith),
  refl,
  refl,
  refl,
  refl,
  refl,
  omega arith,
  λ h. refl,
)

open_current-full :
    (size : ℕ) (c : Chunk) (m : Manager)
    → c.is_open ≡ false
    → free_size c < size
    → open_current size (c, m) ≡ open_on size (take_chunk m)
unfolding open_current
open_current-full size c m closed h = ground arith

open_current-room :
    (size : ℕ) (c : Chunk) (m : Manager)
    → c.is_open ≡ false
    → size ≤ free_size c
    → open_current size (c, m) ≡ open_on size (c, m)
unfolding open_current
open_current-room size c m closed h = ground arith

open_current-large :
    (size : ℕ) (c : Chunk) (m : Manager)
    → c.is_open ≡ false
    → send_buffer_chunk_size < size
    → open_current size (c, m) ≡ crash
unfolding open_current open_on take_chunk open_chunk
open_current-large size c m closed h = ground arith

open_current_fits :
    (size : ℕ) (c : Chunk) (m : Manager)
    → c.is_open ≡ false
    → InBounds c
    → size ≤ send_buffer_chunk_size
    → Opens size c (open_current size (c, m))
open_current_fits size c m closed h fits = elim (Bool-cases (ltb (free_size c) size)) [
  | inl e ↦
      subst (Opens size c) (sym (open_current-full size c m closed (ground arith)))
        (open_taken size c m fits (ground arith))
  | inr e ↦
      subst (Opens size c) (sym (open_current-room size c m closed (ground arith)))
        (open_present size c m closed h fits (ground arith))
]

-- What opening a buffer comes to, when the thread's chunk is not open: a size above 6000 crashes; any
-- other gets a buffer of that size within one chunk, which is then the thread's, and open; that chunk
-- is the one the thread had if the size fits what it has left.
pub open_buffer_lem :
    (size : ℕ) (m : Manager) (c : Chunk)
    → m.current ≡ some c
    → c.is_open ≡ false
    → InBounds c
    → (send_buffer_chunk_size < size → open_buffer size m ≡ crash)
      × (size ≤ send_buffer_chunk_size → Opens size c (open_buffer size m))
unfolding open_buffer current_or_new
open_buffer_lem size m c e closed h =
    let on_current : open_buffer size m ≡ open_current size (c, m) =
      ap (λ o. open_current size (current_or_new o m)) e in
    (
      λ large. on_current ∙ open_current-large size c m closed large,
      λ fits. subst (Opens size c) (sym on_current) (open_current_fits size c m closed h fits),
    )
