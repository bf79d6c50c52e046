-- ===== src/Response/Binary.antt =====
-- packet.go: the two encoders of a data packet, `marshalPacket` and `MarshalBinary`.
use sftp_go.Base.{
  ℕ, zero, suc, ◌+◌, ◌-◌, ap, sym, ◌∙◌, ◌%◌, ◌^◌, ◌≤◌, ◌≡◌, refl, arith, some, [], ◌∷◌, ◌++◌,
  length, append_assoc, append-nil, length-append, length-take, length-drop, take_all, take-append,
  drop-append, take, drop, replicate,
}
use mathlib.Core.Path.{subst}
use sftp_go.Wire.{Bytes, uint32_bytes}
use sftp_go.Wire.RoundTrip.{length-uint32_bytes, encoded}
use sftp_go.Packet.Encode.{start_packet}
use sftp_go.Packet.Fxp
use sftp_go.Packet.Frame.{send_packet}
use sftp_go.Response.{marshal_data, marshal_data_binary, copy_at}

copy_at_middle :
    (a m c src : Bytes)
    → length src ≡ length m
    → copy_at (length a) src (a ++ (m ++ c)) ≡ a ++ (src ++ c)
unfolding copy_at
copy_at_middle a m c src h =
    let room : length src ≤ length (a ++ (m ++ c)) - length a =
      omega (arith, length-append a (m ++ c), length-append m c) in
    let behind : length a + length src ≡ length (a ++ m) = omega (arith, length-append a m) in
    rw
      (
        copy_at,
        take-append a (m ++ c),
        take_all _ src room,
        behind,
        sym (append_assoc a m c),
        drop-append (a ++ m) c,
      )
      (append_assoc a src c)

cut : (n : ℕ) (xs : Bytes) → xs ≡ take n xs ++ drop n xs
cut zero xs = refl
cut (suc n) [] = refl
cut (suc n) (x ∷ xs) = ap (◌∷◌ x) (cut n xs)

-- The three writes over thirteen bytes that stand in front of the data.
headed :
    (id len : ℕ) (a b c e d : Bytes)
    → length a ≡ 4
    → length b ≡ 1
    → length c ≡ 4
    → length e ≡ 4
    → copy_at 9
        (uint32_bytes len)
        (copy_at 5 (uint32_bytes id) (copy_at 4 (103 ∷ []) (a ++ (b ++ (c ++ (e ++ d))))))
      ≡ a ++ 103 ∷ (uint32_bytes id ++ (uint32_bytes len ++ d))
headed id len a b c e d ha hb hc he = rw (typed, numbered, sized) refl
  where
    typed : copy_at 4 (103 ∷ []) (a ++ (b ++ (c ++ (e ++ d)))) ≡ a ++ (103 ∷ [] ++ (c ++ (e ++ d)))
    typed = rw (sym ha) (copy_at_middle a b (c ++ (e ++ d)) (103 ∷ []) (sym hb))

    numbered :
        copy_at 5 (uint32_bytes id) (a ++ 103 ∷ (c ++ (e ++ d)))
        ≡ a ++ 103 ∷ (uint32_bytes id ++ (e ++ d))
    numbered =
        let five : length (a ++ 103 ∷ []) ≡ 5 = omega (arith, length-append a (103 ∷ [])) in
        let put =
          copy_at_middle (a ++ 103 ∷ []) c (e ++ d) (uint32_bytes id)
            (length-uint32_bytes id ∙ sym hc) in
        rw
          (
            five,
            append_assoc a (103 ∷ []) (c ++ (e ++ d)),
            append_assoc a (103 ∷ []) (uint32_bytes id ++ (e ++ d)),
          )
          at put

    sized :
        copy_at 9 (uint32_bytes len) (a ++ 103 ∷ (uint32_bytes id ++ (e ++ d)))
        ≡ a ++ 103 ∷ (uint32_bytes id ++ (uint32_bytes len ++ d))
    sized =
        let i = uint32_bytes id in
        let nine : length (a ++ 103 ∷ i) ≡ 9 =
          omega (arith, length-append a (103 ∷ i), length-uint32_bytes id) in
        let put =
          copy_at_middle (a ++ 103 ∷ i) e d (uint32_bytes len) (length-uint32_bytes len ∙ sym he) in
        rw
          (
            nine,
            append_assoc a (103 ∷ i) (e ++ d),
            append_assoc a (103 ∷ i) (uint32_bytes len ++ d),
          )
          at put

-- The same over any thirteen bytes, of which the first four stay.
headed_over :
    (id len : ℕ) (h d : Bytes)
    → length h ≡ 13
    → copy_at 9 (uint32_bytes len) (copy_at 5 (uint32_bytes id) (copy_at 4 (103 ∷ []) (h ++ d)))
      ≡ take 4 h ++ 103 ∷ (uint32_bytes id ++ (uint32_bytes len ++ d))
headed_over id len h d eh = rw pieces (
    headed id len (take 4 h) (take 1 r) (take 4 q) (drop 4 q) d (omega (arith, length-take 4 h))
      (omega (arith, length-take 1 r, length-drop 4 h))
      (omega (arith, length-take 4 q, length-drop 1 r, length-drop 4 h))
      (omega (arith, length-drop 4 q, length-drop 1 r, length-drop 4 h)))
  where
    r : Bytes
    r = drop 4 h

    q : Bytes
    q = drop 1 r

    pieces : h ++ d ≡ take 4 h ++ (take 1 r ++ (take 4 q ++ (drop 4 q ++ d)))
    pieces =
        ap (λ y. y ++ d) (cut 4 h ∙ ap (◌++◌ (take 4 h)) (cut 1 r ∙ ap (◌++◌ (take 1 r)) (cut 4 q)))
        ∙ simp append_assoc refl

send_front :
    (a x : Bytes) → length a ≡ 4 → send_packet (a ++ x, []) ≡ uint32_bytes (length x % 2 ^ 32) ++ x
unfolding send_packet
send_front a x h = rw (send_packet, size, rest, append-nil) refl
  where
    size : length (a ++ x) + 0 - 4 ≡ length x
    size = omega (arith, length-append a x)

    rest : drop 4 (a ++ x) ≡ x
    rest = rw (sym h) (drop-append a x)

-- `MarshalBinary` of a data packet, which shifts the data in place behind room for a header, puts
-- the same bytes on the wire as `marshalPacket`; for a length that is that of the data.
pub send_packet-marshal_data_binary :
    (id : ℕ) (d : Bytes)
    → (b : Bytes) × (marshal_data_binary id (length d) d ≡ some b)
      × (send_packet (b, []) ≡ send_packet (marshal_data id (length d) d))
unfolding marshal_data_binary marshal_data send_packet
send_packet-marshal_data_binary id d = (
  take 4 h ++ x,
  packed,
  send_front (take 4 h) x (omega (arith, length-take 4 h, long)) ∙ sym sent,
)
  where
    h : Bytes
    h = take 13 (d ++ replicate 13 0)

    x : Bytes
    x = 103 ∷ (uint32_bytes id ++ (uint32_bytes (length d) ++ d))

    long : length h ≡ 13
    long = omega (arith, length-append d (replicate 13 0), length-take 13 (d ++ replicate 13 0))

    front : copy_at 13 (take (length d) d) (d ++ replicate 13 0) ≡ h ++ d
    front =
        let z : Bytes = replicate 13 0 in
        let behind : Bytes = drop 13 (d ++ z) in
        let whole : d ++ z ≡ h ++ (behind ++ []) =
          cut 13 (d ++ z) ∙ ap (◌++◌ h) (sym (append-nil behind)) in
        let same : length d ≡ length behind =
          omega (arith, length-append d z, length-drop 13 (d ++ z)) in
        let moved : copy_at 13 d (h ++ (behind ++ [])) ≡ h ++ d =
          rw (long, append-nil d) at (copy_at_middle h behind [] d same) in
        rw (take_all (length d) d (omega arith))
          (subst (λ y. copy_at 13 d y ≡ h ++ d) (sym whole) moved)

    packed : marshal_data_binary id (length d) d ≡ some (take 4 h ++ x)
    packed = rw (marshal_data_binary, front, headed_over id (length d) h d long) (ground arith)

    size : length x ≡ 9 + length d
    size = omega (
      arith,
      length-append (uint32_bytes id) (uint32_bytes (length d) ++ d),
      length-append (uint32_bytes (length d)) d,
      length-uint32_bytes id,
      length-uint32_bytes (length d),
    )

    head : length (start_packet Fxp.content ++ uint32_bytes id ++ uint32_bytes (length d)) ≡ 13
    head = omega (
      arith,
      length-append (start_packet Fxp.content ++ uint32_bytes id) (uint32_bytes (length d)),
      length-append (start_packet Fxp.content) (uint32_bytes id),
      length-uint32_bytes id,
      length-uint32_bytes (length d),
    )

    sent : send_packet (marshal_data id (length d) d) ≡ uint32_bytes (length x % 2 ^ 32) ++ x
    sent = simp encoded (ap (λ n. uint32_bytes (n % 2 ^ 32) ++ x) (omega (arith, size, head)))
