-- ===== src/RecvBuffer/Fifo.antt =====
-- The receive buffer is a first-in first-out queue of bytes.
use jam_server_prototype.Common.{
  ℕ, ◌+◌, ◌-◌, ◌≤◌, ◌<◌, ◌≡◌, refl, ap, ◌∙◌, true, false, inl, inr, List, ◌++◌, ltb, ◌==◌,
  Bool-cases, length, take, drop, arith, length-append, length-take, length-drop, length-replicate,
  drop-append_le, take_prefix, le→ltb_false, lt→ltb, drop-drop, drop-take, append_assoc,
}
use jam_server_prototype.RecvBuffer.{
  RecvBuffer, IsValid, init, data_size, free_size, overwrite, unread, clean, on_read, on_write,
  deposit,
}

length-overwrite :
    (pos : ℕ) (bytes buffer : List ℕ)
    → pos + length bytes ≤ length buffer
    → length (overwrite pos bytes buffer) ≡ length buffer
length-overwrite pos bytes buffer h = omega (
  arith,
  length-append (take pos buffer) (bytes ++ drop (pos + length bytes) buffer),
  length-append bytes (drop (pos + length bytes) buffer),
  length-take pos buffer,
  length-drop (pos + length bytes) buffer,
)

init-IsValid : (n : ℕ) → IsValid (init n)
unfolding init
init-IsValid n = record {
  ordered = omega arith;
  within = omega arith;
  sized = length-replicate _ 0;
}

pub length-unread : (b : RecvBuffer) → IsValid b → length (unread b) ≡ data_size b
length-unread b v = omega (
  arith,
  length-take (data_size b) (drop b.read_pos b.buffer),
  length-drop b.read_pos b.buffer,
  v.ordered,
  v.within,
  v.sized,
)

-- `Clean` keeps the buffer well formed.
pub clean-IsValid : (b : RecvBuffer) → IsValid b → IsValid (clean b)
unfolding clean
clean-IsValid b v = ground (arith, length-overwrite 0 (unread b) b.buffer, length-unread b v)

-- `Clean` keeps the unread bytes, whichever branch it takes.
pub unread-clean : (b : RecvBuffer) → IsValid b → unread (clean b) ≡ unread b
unfolding clean
unread-clean b v = elim (Bool-cases (data_size b == 0)) [
  | inl e ↦ rw (e, clean) (let z : data_size b ≡ 0 = ground arith in rw z refl)
  | inr e ↦ elim (Bool-cases (ltb b.buffer_size (free_size b))) [
    | inl f ↦ rw (e, clean, f) (take_prefix _ (unread b) _ (omega (arith, length-unread b v)))
    | inr f ↦ rw (e, clean, f)
  ]
]

-- `Clean` never shrinks the free space, and an empty buffer gets all of it back.
pub free_size-clean :
    (b : RecvBuffer)
    → IsValid b
    → (free_size b ≤ free_size (clean b)) × (data_size b ≡ 0 → free_size (clean b) ≡ b.capacity)
unfolding clean
free_size-clean b v = ground arith

window_advance :
    (r w n : ℕ) (xs : List ℕ)
    → n ≤ w - r
    → take (w - (r + n)) (drop (r + n) xs) ≡ drop n (take (w - r) (drop r xs))
window_advance r w n xs h =
    let e : w - r ≡ n + (w - (r + n)) = omega arith in
    rw (e, drop-take n (w - (r + n)) (drop r xs), drop-drop r n xs) refl

window_extend :
    (r w : ℕ) (bytes xs rest : List ℕ)
    → r ≤ w
    → w ≤ length xs
    → take (w + length bytes - r) (drop r (take w xs ++ (bytes ++ rest)))
      ≡ take (w - r) (drop r xs) ++ bytes
window_extend r w bytes xs rest h k =
    rw (drop-append_le r (take w xs) (bytes ++ rest) (omega (arith, length-take w xs)), inner)
      (rw (← append_assoc) (
        take_prefix _ (take (w - r) (drop r xs) ++ bytes) rest (
          omega (
            arith,
            length-append (take (w - r) (drop r xs)) bytes,
            length-take (w - r) (drop r xs),
            length-drop r xs,
          ))))
  where
    inner : drop r (take w xs) ≡ take (w - r) (drop r xs)
    inner =
        let e : w ≡ r + (w - r) = omega arith in
        ap (λ k. drop r (take k xs)) e ∙ drop-take r (w - r) xs

-- `OnRead(n)` takes exactly the first `n` unread bytes, and fails, leaving the buffer as it is,
-- exactly when there are fewer.
pub on_read_lem :
    (n : ℕ) (b : RecvBuffer)
    → IsValid b
    → (n ≤ length (unread b)
        → ((on_read n b).1 ≡ true)
          × IsValid (on_read n b).0
          × (unread (on_read n b).0 ≡ drop n (unread b)))
      × (length (unread b) < n → on_read n b ≡ (b, false))
unfolding on_read
on_read_lem n b v = (
  λ h.
      let len = length-unread b v in
      let e : ltb (data_size b) n ≡ false = le→ltb_false (data_size b) n (omega arith) in
      rw (e, on_read)
        (
          refl,
          record { ordered = omega (arith, v.ordered); within = v.within; sized = v.sized },
          window_advance b.read_pos b.write_pos n b.buffer (omega arith),
        ),
  λ h. let len = length-unread b v in rw (lt→ltb (data_size b) n (omega arith), on_read),
)

-- A receive of `bytes` that fit puts them behind the unread bytes.
pub receive_lem :
    (bytes : List ℕ) (b : RecvBuffer)
    → IsValid b
    → length bytes ≤ free_size b
    → let r = on_write (length bytes) (deposit bytes b) in
      (r.1 ≡ true) × IsValid r.0 × (unread r.0 ≡ unread b ++ bytes)
unfolding on_write deposit
receive_lem bytes b v h =
    let e : ltb (free_size b) (length bytes) ≡ false = le→ltb_false _ _ h in
    rw (e, on_write)
      (
        refl,
        record {
          ordered = omega (arith, v.ordered);
          within = omega (arith, v.within);
          sized =
              length-overwrite b.write_pos bytes b.buffer (omega (arith, v.within, v.sized))
              ∙ v.sized;
        },
        window_extend b.read_pos b.write_pos bytes b.buffer _ v.ordered
            (omega (arith, v.within, v.sized)),
      )

-- `Clean` keeps the capacity.
pub clean_capacity : (b : RecvBuffer) → (clean b).capacity ≡ b.capacity
unfolding clean
clean_capacity b = ground arith
