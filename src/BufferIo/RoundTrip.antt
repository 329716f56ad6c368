-- ===== src/BufferIo/RoundTrip.antt =====
-- What was written is read back, and checked operations stay inside the buffer.
use jam_server_prototype.Common.{
  ℕ, ◌+◌, ◌-◌, ◌≤◌, ◌<◌, ◌≡◌, refl, sym, ap, ap₂, ◌∙◌, Option, none, some, List, [], ◌∷◌, ◌++◌, map,
  length, take, drop, concat, u32, arith, append_assoc, length-append, length-take, length-drop,
  take_prefix, drop_prefix, drop-drop, take-append_self, drop-append_self, take-append-drop,
}
use jam_server_prototype.RecvBuffer.{overwrite}
use jam_server_prototype.BufferIo.{
  Cursor, bytes_at, advance, peek, read, extract, write, reserve, IsValid,
}

-- Writes one after another, and reads of these lengths.
pub write_all : List (List ℕ) → Cursor → Option Cursor
write_all [] c = some c
write_all (src ∷ srcs) c = elim (write src c) [ none ↦ none | some c' ↦ write_all srcs c' ]

pub read_all : List ℕ → Cursor → Option (List (List ℕ))
read_all [] c = some []
read_all (len ∷ lens) c = elim (read len c) [
  | none ↦ none
  | some (bytes, c') ↦ elim (read_all lens c') [ none ↦ none | some rest ↦ some (bytes ∷ rest) ]
]

-- The cursor after bytes were written.
abbrev written : List ℕ → Cursor → Cursor
written src c = record c { buffer = overwrite c.pos src c.buffer; pos = c.pos + length src }

overwrite_twice :
    (p : ℕ) (xs ys buffer : List ℕ)
    → p + length xs ≤ length buffer
    → overwrite (p + length xs) ys (overwrite p xs buffer) ≡ overwrite p (xs ++ ys) buffer
overwrite_twice p xs ys buffer h =
    ap₂ (λ a b. a ++ (ys ++ b)) front back
    ∙ (append_assoc (take p buffer) xs (ys ++ drop (p + length xs + length ys) buffer)
        ∙ ap (λ t. take p buffer ++ t)
            (sym (append_assoc xs ys (drop (p + length xs + length ys) buffer))
              ∙ ap (λ n. (xs ++ ys) ++ drop n buffer) (omega (arith, length-append xs ys))))
  where
    shape : overwrite p xs buffer ≡ (take p buffer ++ xs) ++ drop (p + length xs) buffer
    shape = sym (append_assoc (take p buffer) xs (drop (p + length xs) buffer))

    size : p + length xs ≡ length (take p buffer ++ xs)
    size = omega (arith, length-append (take p buffer) xs, length-take p buffer)

    front : take (p + length xs) (overwrite p xs buffer) ≡ take p buffer ++ xs
    front = ap (take (p + length xs)) shape ∙ take_prefix _ (take p buffer ++ xs) _ size

    back :
        drop (p + length xs + length ys) (overwrite p xs buffer)
        ≡ drop (p + length xs + length ys) buffer
    back =
        sym (drop-drop (p + length xs) (length ys) (overwrite p xs buffer))
        ∙ (ap (drop (length ys))
              (ap (drop (p + length xs)) shape ∙ drop_prefix _ (take p buffer ++ xs) _ size)
            ∙ drop-drop (p + length xs) (length ys) buffer)

length-overwrite :
    (p : ℕ) (xs buffer : List ℕ)
    → p + length xs ≤ length buffer
    → length (overwrite p xs buffer) ≡ length buffer
length-overwrite p xs buffer h = omega (
  arith,
  length-append (take p buffer) (xs ++ drop (p + length xs) buffer),
  length-append xs (drop (p + length xs) buffer),
  length-take p buffer,
  length-drop (p + length xs) buffer,
)

write-written :
    (src : List ℕ) (c : Cursor)
    → IsValid c
    → length src ≤ c.size - c.pos
    → write src c ≡ some (written src c)
unfolding write
write-written src c v h =
    let within = v.within in
    let small = v.small in
    let n : u32 (c.pos + length src) ≡ c.pos + length src = omega arith in ground arith

written-IsValid :
    (src : List ℕ) (c : Cursor) → IsValid c → length src ≤ c.size - c.pos → IsValid (written src c)
written-IsValid src c v h = record {
  sized = length-overwrite c.pos src c.buffer (omega (arith, v.within, v.sized)) ∙ v.sized;
  within = omega (arith, v.within);
  small = v.small;
}

write_all-written :
    (srcs : List (List ℕ)) (c : Cursor)
    → IsValid c
    → length (concat srcs) ≤ c.size - c.pos
    → write_all srcs c ≡ some (written (concat srcs) c)
unfolding write_all
write_all-written [] c v h =
    ap₂ (λ b p. some (record c { buffer = b; pos = p }))
      (sym (
        ap (λ n. take c.pos c.buffer ++ drop n c.buffer) (omega arith)
        ∙ take-append-drop c.pos c.buffer))
      (omega arith)
write_all-written (src ∷ srcs) c v h =
    let l = length-append src (concat srcs) in
    rw (write-written src c v (omega (arith, l)), write_all)
      (write_all-written srcs (written src c) (written-IsValid src c v (omega (arith, l)))
          (omega (arith, l))
        ∙ ap₂ (λ b p. some (record c { buffer = b; pos = p }))
            (overwrite_twice c.pos src (concat srcs) c.buffer (omega (arith, l, v.within, v.sized)))
            (omega (arith, l)))

read-there :
    (len : ℕ) (c : Cursor) {bytes : List ℕ}
    → c.size < 4294967296
    → c.pos + len ≤ c.size
    → bytes_at len c ≡ bytes
    → read len c ≡ some (bytes, record c { pos = c.pos + len })
unfolding read peek
read-there len c small fit e =
    let n : u32 (c.pos + len) ≡ c.pos + len = omega arith in rw (← e) (ground arith)

read_all-there :
    (srcs : List (List ℕ)) (rest : List ℕ) (c : Cursor)
    → c.size < 4294967296
    → c.pos + length (concat srcs) ≤ c.size
    → drop c.pos c.buffer ≡ concat srcs ++ rest
    → read_all (map length srcs) c ≡ some srcs
unfolding read_all
read_all-there [] rest c small fit e = refl
read_all-there (src ∷ srcs) rest c small fit e =
    rw
      (
        one,
        read_all,
        read_all-there srcs rest (record c { pos = c.pos + length src }) small (omega (arith, l))
            later,
      )
      refl
  where
    l : length (src ++ concat srcs) ≡ length src + length (concat srcs)
    l = length-append src (concat srcs)

    here : drop c.pos c.buffer ≡ src ++ (concat srcs ++ rest)
    here = e ∙ append_assoc src (concat srcs) rest

    bytes : bytes_at (length src) c ≡ src
    bytes = ap (take (length src)) here ∙ take-append_self src (concat srcs ++ rest)

    one : read (length src) c ≡ some (src, record c { pos = c.pos + length src })
    one = read-there (length src) c small (omega (arith, l)) bytes

    later : drop (c.pos + length src) c.buffer ≡ concat srcs ++ rest
    later =
        sym (drop-drop c.pos (length src) c.buffer)
        ∙ (ap (drop (length src)) here ∙ drop-append_self src (concat srcs ++ rest))

-- Writes that fit all succeed, and reads of the same lengths, from where the writes began, give back
-- exactly what was written, in order. Nothing before that position changes.
pub read_all-write_all :
    (srcs : List (List ℕ)) (c : Cursor)
    → IsValid c
    → length (concat srcs) ≤ c.size - c.pos
    → (c' : Cursor) × (write_all srcs c ≡ some c')
      × (c'.pos ≡ c.pos + length (concat srcs))
      × (read_all (map length srcs) (record c' { pos = c.pos }) ≡ some srcs)
      × (take c.pos c'.buffer ≡ take c.pos c.buffer)
read_all-write_all srcs c v h =
    let all = concat srcs in
    let before : c.pos ≡ length (take c.pos c.buffer) =
      omega (arith, length-take c.pos c.buffer, v.within, v.sized) in
    (
      written all c,
      write_all-written srcs c v h,
      refl,
      read_all-there srcs (drop (c.pos + length all) c.buffer)
          (record (written all c) { pos = c.pos }) v.small (omega (arith, v.within))
          (drop_prefix c.pos (take c.pos c.buffer) _ before),
      take_prefix c.pos (take c.pos c.buffer) _ before,
    )

-- On a valid cursor a checked operation is refused exactly if the bytes do not fit, and leaves a valid
-- cursor otherwise.
pub checked_lem :
    (len : ℕ) (c : Cursor)
    → IsValid c
    → (c.size - c.pos < len → (read len c ≡ none) × (reserve len c ≡ none))
      × (len ≤ c.size - c.pos
          → (read len c ≡ some (bytes_at len c, record c { pos = c.pos + len }))
            × (reserve len c ≡ some (c.pos, record c { pos = c.pos + len }))
            × IsValid (record c { pos = c.pos + len }))
unfolding read peek reserve
checked_lem len c v =
    let within = v.within in
    let small = v.small in
    (
      λ h. (ground arith, ground arith),
      λ h.
          let n : u32 (c.pos + len) ≡ c.pos + len = omega arith in
          (
            ground arith,
            ground arith,
            record { sized = v.sized; within = omega (arith, within, h); small = small },
          ),
    )

-- `operator>>` is not checked: one that goes beyond the end makes the free size wrap, and from then on
-- a checked read of any length up to the wrapped size is allowed, beyond the end.
pub extract_past_end :
    (len more : ℕ) (c : Cursor)
    → IsValid c
    → c.size - c.pos < len
    → c.pos + len < 4294967296
    → more + (c.pos + len - c.size) ≤ 4294967296 - 1
    → let past_end = (extract len c).1 in
      (c.size < past_end.pos)
      × (read more past_end ≡ some (bytes_at more past_end, advance more past_end))
unfolding read peek extract
extract_past_end len more c v past fits small =
    let within = v.within in
    let bound = v.small in
    let n : u32 (c.pos + len) ≡ c.pos + len = omega arith in (omega (arith, past, n), ground arith)
