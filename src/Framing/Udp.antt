-- ===== src/Framing/Udp.antt =====
-- The packet loop of the UDP receiver. It advances over the packets as the TCP loop does, and hands
-- each of them to `OnRecv` by its length but from the start of the buffer.
use jam_server_prototype.Common.{
  ℕ, zero, suc, ◌+◌, ◌-◌, ◌≤◌, ◌<◌, ◌≡◌, refl, sym, ap, ap₂, ◌∙◌, inl, inr, false, some, List, [],
  ◌∷◌, ◌++◌, map, ltb, le→ltb_false, Bool-cases, length, take, drop, concat, arith, append-nil,
  append_assoc, length-append, drop-drop, take-append_self, drop-append_self,
}
use jam_server_prototype.Framing.{Packet, size_of, udp_header_size, udp_loop, udp_is_parsing_packet}
use jam_server_prototype.Framing.Frames.{IsFrame, AllFrames, IsPartial, size_of-append}

-- What the handler is given for packets of these lengths.
abbrev pub prefixes : List ℕ → List Packet → List Packet
prefixes buffer = map (λ p. take (length p) buffer)

udp_loop-partial :
    (fuel : ℕ) (buffer rest junk : List ℕ) (len pos : ℕ) (calls : List Packet)
    → IsPartial udp_header_size rest
    → drop pos buffer ≡ rest ++ junk
    → len ≡ pos + length rest
    → udp_loop (suc fuel) buffer len pos calls ≡ some (calls, pos)
unfolding udp_loop
udp_loop-partial fuel buffer rest junk len pos calls h e l =
    elim (Bool-cases (ltb (len - pos) udp_header_size)) [
      | inl short ↦ rw (short, udp_loop)
      | inr long ↦
          let s : size_of (rest ++ junk) ≡ size_of rest = size_of-append rest junk (ground arith) in
          rw (long, udp_loop, e, s) (ground arith)
    ]

udp_loop_lem :
    (fuel : ℕ) (ps : List Packet) (buffer rest junk : List ℕ) (len pos : ℕ) (calls : List Packet)
    → AllFrames udp_header_size ps
    → IsPartial udp_header_size rest
    → drop pos buffer ≡ concat ps ++ (rest ++ junk)
    → len ≡ pos + length (concat ps) + length rest
    → length ps < fuel
    → udp_loop fuel buffer len pos calls
      ≡ some (calls ++ prefixes buffer ps, pos + length (concat ps))
unfolding udp_loop
udp_loop_lem zero ps buffer rest junk len pos calls a h e l f = absurd (omega arith)
udp_loop_lem (suc fuel) [] buffer rest junk len pos calls a h e l f =
    udp_loop-partial fuel buffer rest junk len pos calls h e (omega arith)
    ∙ rw append-nil (ap (λ k. some (calls, k)) (omega arith))
udp_loop_lem (suc fuel) (p ∷ ps) buffer rest junk len pos calls a h e l f =
    rw (long, size, enough, headed, fits)
      (udp_loop_lem fuel ps buffer rest junk len (pos + length p)
          (calls ++ take (length p) buffer ∷ []) a.1 h later (omega (arith, l, total)) (omega arith)
        ∙ rw append_assoc
            (ap (λ k. some (calls ++ prefixes buffer (p ∷ ps), k)) (omega (arith, total))))
  where
    total : length (p ++ concat ps) ≡ length p + length (concat ps)
    total = length-append p (concat ps)

    here : drop pos buffer ≡ p ++ (concat ps ++ (rest ++ junk))
    here = e ∙ append_assoc p (concat ps) (rest ++ junk)

    size : size_of (drop pos buffer) ≡ length p
    size =
        ap size_of here
        ∙ (size_of-append p (concat ps ++ (rest ++ junk)) (omega (arith, a.0.headed))
            ∙ sym a.0.sized)

    long : ltb (len - pos) udp_header_size ≡ false
    long = le→ltb_false (len - pos) udp_header_size (omega (arith, a.0.headed, l, total))

    enough : ltb (len - pos) (length p) ≡ false
    enough = le→ltb_false (len - pos) (length p) (omega (arith, l, total))

    headed : ltb (length p) udp_header_size ≡ false
    headed = le→ltb_false (length p) udp_header_size a.0.headed

    fits : ltb len (pos + length p) ≡ false
    fits = le→ltb_false len (pos + length p) (omega (arith, l, total))

    later : drop (pos + length p) buffer ≡ concat ps ++ (rest ++ junk)
    later =
        sym (drop-drop pos (length p) buffer)
        ∙ (ap (drop (length p)) here ∙ drop-append_self p (concat ps ++ (rest ++ junk)))

length-concat : (ps : List Packet) → AllFrames udp_header_size ps → length ps ≤ length (concat ps)
length-concat [] a = omega arith
length-concat (p ∷ ps) a =
    omega (arith, a.0.headed, length-append p (concat ps), length-concat ps a.1)

-- The loop ends, processes exactly the whole packets at the front, and calls the handler once for
-- each of them, in order: with as many bytes as the packet has, read from the start of the buffer.
pub udp_parse-frames :
    (ps : List Packet) (rest junk : List ℕ)
    → AllFrames udp_header_size ps
    → IsPartial udp_header_size rest
    → udp_is_parsing_packet (concat ps ++ (rest ++ junk)) (length (concat ps) + length rest)
      ≡ some (prefixes (concat ps ++ (rest ++ junk)) ps, length (concat ps))
unfolding udp_is_parsing_packet
udp_parse-frames ps rest junk a h =
    udp_loop_lem (suc (length (concat ps) + length rest)) ps (concat ps ++ (rest ++ junk)) rest junk
      (length (concat ps) + length rest) 0 [] a h refl (omega arith)
      (omega (arith, length-concat ps a))
    ∙ ap (λ k. some (prefixes (concat ps ++ (rest ++ junk)) ps, k)) (omega arith)

-- A datagram that is one packet reaches the handler as it is.
pub udp_parse_one :
    (p : Packet) (junk : List ℕ)
    → IsFrame udp_header_size p
    → udp_is_parsing_packet (p ++ junk) (length p) ≡ some (p ∷ [], length p)
udp_parse_one p junk f =
    let sizes : length (p ++ []) ≡ length p = ap length (append-nil p) in
    ap₂ udp_is_parsing_packet (sym (append_assoc p [] junk)) (omega (arith, sizes))
    ∙ (udp_parse-frames (p ∷ []) [] junk (f, tt) (inl (omega arith))
        ∙ ap₂ (λ q n. some (q ∷ [], n))
            (ap (take (length p)) (append_assoc p [] junk) ∙ take-append_self p junk) sizes)

-- Of two packets of one length in a row the handler gets the first one twice, and never the second.
pub udp_parse_repeats :
    (p q : Packet)
    → IsFrame udp_header_size p
    → IsFrame udp_header_size q
    → length p ≡ length q
    → udp_is_parsing_packet (p ++ q) (length p + length q) ≡ some (p ∷ p ∷ [], length p + length q)
udp_parse_repeats p q f g e =
    ap₂ udp_is_parsing_packet (sym joined) (sym size)
    ∙ (udp_parse-frames (p ∷ q ∷ []) [] [] (f, (g, tt)) (inl (omega arith))
        ∙ ap₂ (λ qs n. some (qs, n)) both (omega (arith, size)))
  where
    joined : (p ++ (q ++ [])) ++ [] ≡ p ++ q
    joined = rw (append-nil, append-nil) refl

    size : length (p ++ (q ++ [])) + 0 ≡ length p + length q
    size = omega (arith, length-append p (q ++ []), ap length (append-nil q))

    both : prefixes ((p ++ (q ++ [])) ++ []) (p ∷ q ∷ []) ≡ p ∷ p ∷ []
    both =
        ap₂ (λ a b. a ∷ b ∷ []) (ap (take (length p)) joined ∙ take-append_self p q)
          (ap₂ take (sym e) joined ∙ take-append_self p q)
