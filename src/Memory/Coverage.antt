-- ===== src/Memory/Coverage.antt =====
-- Which allocation sizes the table covers.
use jam_server_prototype.Common.{
  ℕ, zero, suc, ◌+◌, ◌*◌, ◌%◌, false, ◌≤◌, ◌<◌, ◌≡◌, refl, true, none, some, leb, ◌==◌,
  if◌then◌else◌, Bool-cases, inl, inr, le→ltb_false, lt→ltb, arith,
}
use jam_server_prototype.Memory.{
  max_alloc_size, Table, no_table, fill, pass, build, from_system, from_pool, unset_entry,
  from_stomp, stomp_defined, source_of,
}
use jam_server_prototype.Memory.Stomp.{page_size, page_count, alloc, release, release-alloc}

-- What the inner loop does: it stores the size from the index up to the size itself.
fill_lem :
    (fuel size i : ℕ) (t : Table)
    → suc size ≤ t.index + fuel
    → ((fill fuel size t).pool i
        ≡ (if leb t.index i then (if leb i size then some size else t.pool i) else t.pool i))
      × ((fill fuel size t).index ≡ (if leb t.index size then size + 1 else t.index))
unfolding fill
fill_lem zero size i t h = ground arith
fill_lem (suc fuel) size i t h = elim (Bool-cases (leb t.index size)) [
  | inl more ↦ rw more (
      ground (
        arith,
        fill_lem fuel size i
            (record {
              pool = λ j. if t.index == j then some size else t.pool j;
              index = t.index + 1;
            })
            (omega arith),
      ))
  | inr done ↦ rw done (ground arith)
]

-- Every size below the index has a pool of blocks that are large enough, and no size from it on has
-- a pool.
pub record Covers (t : Table) (n : ℕ) : Type 0 where
  pub indexed : t.index ≡ n
  pub small : (i : ℕ) → i < n → (p : ℕ) × (t.pool i ≡ some p) × (i ≤ p) × (p < n)
  pub large : (i : ℕ) → n ≤ i → t.pool i ≡ none

fill-Covers :
    (size n : ℕ) (t : Table) → Covers t n → n ≤ size → Covers (fill (suc size) size t) (size + 1)
fill-Covers size n t c h = record {
  indexed = let f = fill_lem (suc size) size 0 t (omega arith) in ground (arith, f.1, c.indexed);
  small = λ i lt.
      let f = fill_lem (suc size) size i t (omega arith) in
      elim (Bool-cases (leb n i)) [
        | inl new ↦ (size, ground (arith, f.0, c.indexed), omega arith, omega arith)
        | inr old ↦
            let (p, e, le, below) = c.small i (ground arith) in
            (p, ground (arith, f.0, c.indexed, e), le, omega (arith, below))
      ];
  large = λ i le.
      let f = fill_lem (suc size) size i t (omega arith) in
      ground (arith, f.0, c.indexed, c.large i (omega arith));
}

-- Where a pass stops, once it has filled up to `last`.
pass_lem :
    (fuel size limit step last : ℕ) (t : Table)
    → Covers t (last + 1)
    → size ≡ last + step
    → last ≤ limit
    → 0 < step
    → limit < size + fuel
    → (k : ℕ) × (r : ℕ) × Covers (pass fuel size limit step t).0 (r + 1)
      × ((pass fuel size limit step t).1 ≡ r + step)
      × (r ≤ limit)
      × (limit < r + step)
      × (r ≡ last + k * step)
unfolding pass
pass_lem zero size limit step last t c s l p f = (0, last, c, s, l, omega arith, omega arith)
pass_lem (suc fuel) size limit step last t c s l p f = elim (Bool-cases (leb size limit)) [
  | inl more ↦
      let (k, r, c', e, a, b, d) =
        pass_lem fuel (size + step) limit step size (fill (suc size) size t)
          (fill-Covers size (last + 1) t c (omega arith)) refl (ground arith) p (omega arith) in
      (k + 1, r, rw more c', rw more e, a, b, grind (arith, d, s))
  | inr done ↦ (0, last, rw done c, rw done s, l, ground arith, omega arith)
]

-- A pass that fills at least one size.
pass_start :
    (fuel size limit step n : ℕ) (t : Table)
    → Covers t n
    → n ≤ size
    → size ≤ limit
    → 0 < step
    → limit < size + fuel
    → (k : ℕ) × (r : ℕ) × Covers (pass (suc fuel) size limit step t).0 (r + 1)
      × ((pass (suc fuel) size limit step t).1 ≡ r + step)
      × (r ≤ limit)
      × (limit < r + step)
      × (r ≡ size + k * step)
unfolding pass
pass_start fuel size limit step n t c h l p f =
    let more : leb size limit ≡ true = ground arith in
    let (k, r, c', e, a, b, d) =
      pass_lem fuel (size + step) limit step size (fill (suc size) size t)
        (fill-Covers size n t c h) refl l p (omega arith) in
    (k, r, rw more c', rw more e, a, b, d)

no_table-Covers : Covers no_table 0
no_table-Covers = record {
  indexed = refl;
  small = λ i h. absurd (omega arith);
  large = λ i h. refl;
}

-- Where a pass stops, with the numbers put in.
stop_at :
    (last step : ℕ) (q : Table × ℕ) (r : ℕ)
    → Covers q.0 (r + 1)
    → q.1 ≡ r + step
    → r ≡ last
    → Covers q.0 (last + 1) × (q.1 ≡ last + step)
stop_at last step q r c e h = (rw (← h) c, omega (arith, e, h))

pass_32 : Covers (pass 1024 32 1024 32 no_table).0 1025 × ((pass 1024 32 1024 32 no_table).1 ≡ 1056)
pass_32 =
    let (k, r, c, e, a, b, d) =
      pass_start 1023 32 1024 32 0 no_table no_table-Covers (omega arith) (omega arith)
        (omega arith) (omega arith) in
    stop_at 1024 32 (pass 1024 32 1024 32 no_table) r c e (omega (arith, a, b, d))

pass_128 :
    (t : Table)
    → Covers t 1025
    → Covers (pass 2048 1056 2048 128 t).0 1953 × ((pass 2048 1056 2048 128 t).1 ≡ 2080)
pass_128 t h =
    let (k, r, c, e, a, b, d) =
      pass_start 2047 1056 2048 128 1025 t h (omega arith) (omega arith) (omega arith)
        (omega arith) in
    stop_at 1952 128 (pass 2048 1056 2048 128 t) r c e (omega (arith, a, b, d))

pass_256 : (t : Table) → Covers t 1953 → Covers (pass 4096 2080 4096 256 t).0 3873
pass_256 t h =
    let (k, r, c, e, a, b, d) =
      pass_start 4095 2080 4096 256 1953 t h (omega arith) (omega arith) (omega arith)
        (omega arith) in
    (stop_at 3872 256 (pass 4096 2080 4096 256 t) r c e (omega (arith, a, b, d))).0

-- The last size class of the three loops is 3872, not 4096: each loop goes on from the size at which
-- the one before stopped.
build-Covers : Covers build 3873
unfolding build
build-Covers =
    let second = pass_128 (pass 1024 32 1024 32 no_table).0 pass_32.0 in
    rw (pass_32.1, build, second.1) (pass_256 _ second.0)

-- With `_STOMP` defined, as it is, every block comes from the stomp allocator: it ends where its pages
-- end, and its release frees the address that the system gave, at a page boundary. In a build without
-- `_STOMP`: up to an allocation size of 3872 a block comes from a pool of blocks that are large enough,
-- above 4096 from the system, and from 3873 to 4096 through a table entry that the constructor never
-- stored.
pub source_of_lem :
    (alloc_size base : ℕ)
    → 0 < alloc_size
    → base % page_size ≡ 0
    → (source_of stomp_defined alloc_size ≡ from_stomp)
      × (alloc base alloc_size + alloc_size ≡ base + page_count alloc_size * page_size)
      × (release (alloc base alloc_size) ≡ base)
      × (alloc_size ≤ 3872
          → (p : ℕ) × (source_of false alloc_size ≡ from_pool p) × (alloc_size ≤ p) × (p ≤ 3872))
      × (3872 < alloc_size → alloc_size ≤ max_alloc_size → source_of false alloc_size ≡ unset_entry)
      × (max_alloc_size < alloc_size → source_of false alloc_size ≡ from_system)
unfolding source_of
source_of_lem alloc_size base some_bytes aligned = (
  refl,
  (release-alloc base alloc_size aligned some_bytes).1,
  (release-alloc base alloc_size aligned some_bytes).3,
  λ h.
      let (p, e, le, below) = build-Covers.small alloc_size (omega arith) in
      (
        p,
        rw (le→ltb_false max_alloc_size alloc_size (omega arith), e) refl,
        le,
        omega (arith, below),
      ),
  λ h k.
      rw (le→ltb_false max_alloc_size alloc_size k, build-Covers.large alloc_size (omega arith))
        refl,
  λ h. rw (lt→ltb max_alloc_size alloc_size h) refl,
)
