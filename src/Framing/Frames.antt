-- ===== src/Framing/Frames.antt =====
-- The independent description of framing: a byte string is a row of whole frames and a rest that
-- does not start with one. The header size is a parameter; both headers begin with the size.
use jam_server_prototype.Common.{
  ℕ, zero, suc, ◌≤◌, ◌<◌, ◌≡◌, refl, ◌⊎◌, inl, inr, List, [], ◌∷◌, ◌++◌, ltb, Bool-cases, length,
  take, drop, concat, arith, length-take, length-drop, take-append-drop, append_assoc,
}
use jam_server_prototype.Framing.{Packet, size_of}

-- A whole packet: its size field is its length, and it holds at least a header.
pub record IsFrame (header : ℕ) (p : Packet) : Type 0 where
  pub sized : length p ≡ size_of p
  pub headed : header ≤ length p

abbrev pub AllFrames : ℕ → List Packet → Type 0
AllFrames header [] = Unit {0}
AllFrames header (p ∷ ps) = IsFrame header p × AllFrames header ps

-- No packet can be taken from the front: the header is not there yet, or the packet is not, or the
-- size field is smaller than a header.
abbrev pub IsPartial : ℕ → List ℕ → Type 0
IsPartial header rest =
    (length rest < header) ⊎ ((length rest < size_of rest) ⊎ (size_of rest < header))

-- The bytes split into frames and a rest.
pub record Split (header : ℕ) (bytes : List ℕ) : Type 0 where
  pub frames : List Packet
  pub rest : List ℕ
  pub all_frames : AllFrames header frames
  pub is_partial : IsPartial header rest
  pub joined : concat frames ++ rest ≡ bytes

-- The size field is read from the first two bytes.
pub size_of-append : (p xs : List ℕ) → 2 ≤ length p → size_of (p ++ xs) ≡ size_of p
size_of-append [] xs h = absurd (omega arith)
size_of-append (a ∷ []) xs h = absurd (omega arith)
size_of-append (a ∷ b ∷ p) xs h = refl

pub size_of-take : (n : ℕ) (xs : List ℕ) → 2 ≤ n → size_of (take n xs) ≡ size_of xs
size_of-take zero xs h = absurd (omega arith)
size_of-take (suc zero) xs h = absurd (omega arith)
size_of-take (suc (suc n)) [] h = refl
size_of-take (suc (suc n)) (a ∷ []) h = refl
size_of-take (suc (suc n)) (a ∷ b ∷ xs) h = refl

module _ (header : ℕ) (two : 2 ≤ header) where
  cons-Split :
      (bytes : List ℕ)
      → header ≤ size_of bytes
      → size_of bytes ≤ length bytes
      → Split header (drop (size_of bytes) bytes)
      → Split header bytes
  cons-Split bytes h k s = record {
    frames = take (size_of bytes) bytes ∷ s.frames;
    rest = s.rest;
    all_frames = (
      record {
        sized = omega (
          arith,
          length-take (size_of bytes) bytes,
          size_of-take (size_of bytes) bytes (omega (arith, two)),
        );
        headed = omega (arith, length-take (size_of bytes) bytes);
      },
      s.all_frames,
    );
    is_partial = s.is_partial;
    joined = rw (append_assoc, s.joined) (take-append-drop (size_of bytes) bytes);
  }

  Split-fuel : (fuel : ℕ) (bytes : List ℕ) → length bytes < fuel → Split header bytes
  Split-fuel zero bytes h = absurd (omega arith)
  Split-fuel (suc fuel) bytes h = elim (Bool-cases (ltb (length bytes) (size_of bytes))) [
    | inl short ↦ stop (inr (inl (ground arith)))
    | inr long ↦ elim (Bool-cases (ltb (size_of bytes) header)) [
      | inl small ↦ stop (inr (inr (ground arith)))
      | inr large ↦ cons-Split bytes (ground arith) (ground arith) (
          Split-fuel fuel (drop (size_of bytes) bytes) (
            let a : length bytes < suc fuel = h in
            let b : header ≤ size_of bytes = ground arith in
            let c : size_of bytes ≤ length bytes = ground arith in
            omega (arith, two, length-drop (size_of bytes) bytes)))
    ]
  ]
    where
      stop : IsPartial header bytes → Split header bytes
      stop p = record { frames = []; rest = bytes; all_frames = tt; is_partial = p; joined = refl }

  -- Every byte string splits.
  pub split : (bytes : List ℕ) → Split header bytes
  split bytes = Split-fuel (suc (length bytes)) bytes (omega arith)
