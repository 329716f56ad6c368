-- ===== src/Framing/Tcp.antt =====
-- The packet loop of a TCP session against the description of framing.
use jam_server_prototype.Common.{
  ℕ, zero, suc, ◌+◌, ◌-◌, ◌≤◌, ◌<◌, ◌≡◌, refl, sym, ap, ap₂, ◌∙◌, inl, inr, false, Option, some,
  List, [], ◌∷◌, ◌++◌, ltb, le→ltb_false, Bool-cases, length, take, drop, concat, arith, append-nil,
  append_assoc, length-append, drop-drop, take-append_self, drop-append_self, take-append-drop,
  length-take,
}
use jam_server_prototype.Framing.{Packet, size_of, tcp_header_size, tcp_loop, tcp_is_parsing_packet}
use jam_server_prototype.Framing.Frames.{AllFrames, IsPartial, Split, size_of-append, split}

tcp_loop-partial :
    (fuel : ℕ) (buffer rest junk : List ℕ) (len pos : ℕ) (calls : List Packet)
    → IsPartial tcp_header_size rest
    → drop pos buffer ≡ rest ++ junk
    → len ≡ pos + length rest
    → tcp_loop (suc fuel) buffer len pos calls ≡ some (calls, pos)
unfolding tcp_loop
tcp_loop-partial fuel buffer rest junk len pos calls h e l =
    elim (Bool-cases (ltb (len - pos) tcp_header_size)) [
      | inl short ↦ rw (short, tcp_loop)
      | inr long ↦
          let s : size_of (rest ++ junk) ≡ size_of rest = size_of-append rest junk (ground arith) in
          rw (long, tcp_loop, e, s) (ground arith)
    ]

tcp_loop_lem :
    (fuel : ℕ) (ps : List Packet) (buffer rest junk : List ℕ) (len pos : ℕ) (calls : List Packet)
    → AllFrames tcp_header_size ps
    → IsPartial tcp_header_size rest
    → drop pos buffer ≡ concat ps ++ (rest ++ junk)
    → len ≡ pos + length (concat ps) + length rest
    → length ps < fuel
    → tcp_loop fuel buffer len pos calls ≡ some (calls ++ ps, pos + length (concat ps))
unfolding tcp_loop
tcp_loop_lem zero ps buffer rest junk len pos calls a h e l f = absurd (omega arith)
tcp_loop_lem (suc fuel) [] buffer rest junk len pos calls a h e l f =
    tcp_loop-partial fuel buffer rest junk len pos calls h e (omega arith)
    ∙ rw append-nil (ap (λ k. some (calls, k)) (omega arith))
tcp_loop_lem (suc fuel) (p ∷ ps) buffer rest junk len pos calls a h e l f =
    rw (long, size, enough, headed, whole)
      (tcp_loop_lem fuel ps buffer rest junk len (pos + length p) (calls ++ p ∷ []) a.1 h later
          (omega (arith, l, total)) (omega arith)
        ∙ rw append_assoc (ap (λ k. some (calls ++ p ∷ ps, k)) (omega (arith, total))))
  where
    total : length (p ++ concat ps) ≡ length p + length (concat ps)
    total = length-append p (concat ps)

    here : drop pos buffer ≡ p ++ (concat ps ++ (rest ++ junk))
    here = e ∙ append_assoc p (concat ps) (rest ++ junk)

    size : size_of (drop pos buffer) ≡ length p
    size =
        ap size_of here
        ∙ (size_of-append p (concat ps ++ (rest ++ junk)) (omega (arith, a.0.headed))
            ∙ sym a.0.sized)

    long : ltb (len - pos) tcp_header_size ≡ false
    long = le→ltb_false (len - pos) tcp_header_size (omega (arith, a.0.headed, l, total))

    enough : ltb (len - pos) (length p) ≡ false
    enough = le→ltb_false (len - pos) (length p) (omega (arith, l, total))

    headed : ltb (length p) tcp_header_size ≡ false
    headed = le→ltb_false (length p) tcp_header_size a.0.headed

    whole : take (length p) (drop pos buffer) ≡ p
    whole = rw here (take-append_self p (concat ps ++ (rest ++ junk)))

    later : drop (pos + length p) buffer ≡ concat ps ++ (rest ++ junk)
    later =
        sym (drop-drop pos (length p) buffer)
        ∙ (ap (drop (length p)) here ∙ drop-append_self p (concat ps ++ (rest ++ junk)))

length-concat : (ps : List Packet) → AllFrames tcp_header_size ps → length ps ≤ length (concat ps)
length-concat [] a = omega arith
length-concat (p ∷ ps) a =
    omega (arith, a.0.headed, length-append p (concat ps), length-concat ps a.1)

-- Whole packets, followed by bytes that do not start one, are handed out one by one, in order and
-- complete, whatever else the buffer holds behind the given length; the rest is not processed.
pub tcp_parse-frames :
    (ps : List Packet) (rest junk : List ℕ)
    → AllFrames tcp_header_size ps
    → IsPartial tcp_header_size rest
    → tcp_is_parsing_packet (concat ps ++ (rest ++ junk)) (length (concat ps) + length rest)
      ≡ some (ps, length (concat ps))
unfolding tcp_is_parsing_packet
tcp_parse-frames ps rest junk a h =
    tcp_loop_lem (suc (length (concat ps) + length rest)) ps (concat ps ++ (rest ++ junk)) rest junk
      (length (concat ps) + length rest) 0 [] a h refl (omega arith)
      (omega (arith, length-concat ps a))
    ∙ ap (λ k. some (ps, k)) (omega arith)

-- What the loop returns for any bytes: it ends, and it splits the bytes into the packets that it
-- handed out and a rest from which no packet can be taken.
pub record Parsed (bytes : List ℕ) (r : Option (List Packet × ℕ)) : Type 0 where
  pub parts : Split tcp_header_size bytes
  pub result : r ≡ some (parts.frames, length (concat parts.frames))

Split-Parsed :
    (buffer : List ℕ) (len : ℕ) (s : Split tcp_header_size (take len buffer))
    → len ≤ length buffer
    → tcp_is_parsing_packet buffer len ≡ some (s.frames, length (concat s.frames))
Split-Parsed buffer len s h =
    ap₂ tcp_is_parsing_packet (sym whole) (sym size)
    ∙ tcp_parse-frames s.frames s.rest (drop len buffer) s.all_frames s.is_partial
  where
    whole : concat s.frames ++ (s.rest ++ drop len buffer) ≡ buffer
    whole =
        sym (append_assoc (concat s.frames) s.rest (drop len buffer))
        ∙ (ap (λ xs. xs ++ drop len buffer) s.joined ∙ take-append-drop len buffer)

    size : length (concat s.frames) + length s.rest ≡ len
    size =
        omega (
          arith,
          length-append (concat s.frames) s.rest,
          ap length s.joined,
          length-take len buffer,
        )

-- The loop ends on every input with enough bytes behind the pointer, and processes exactly the
-- whole packets at the front.
pub tcp_parse-Parsed :
    (buffer : List ℕ) (len : ℕ)
    → len ≤ length buffer
    → Parsed (take len buffer) (tcp_is_parsing_packet buffer len)
tcp_parse-Parsed buffer len h =
    let s = split tcp_header_size (omega arith) (take len buffer) in
    record { parts = s; result = Split-Parsed buffer len s h }
