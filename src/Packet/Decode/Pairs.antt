-- ===== src/Packet/Decode/Pairs.antt =====
-- The extension pairs of an init packet.
use sftp_go.Base.{
  ℕ, zero, suc, ◌≤◌, ◌≡◌, refl, ap, ◌∙◌, arith, List, [], ◌∷◌, ◌++◌, append_assoc, append-nil,
  length, All, length-append,
}
use sftp_go.Wire.{Bytes, uint32_bytes, marshal_string}
use sftp_go.Wire.RoundTrip.{string_bytes, encoded, decoded, length-string_bytes}
use sftp_go.Packet.{ExtensionPair, init}
use sftp_go.Packet.Encode.{marshal_pairs, marshal_init}
use sftp_go.Packet.Decode.{done, unmarshal_pairs, unmarshal_init, make_packet}
use sftp_go.Packet.Fxp
use sftp_go.Packet.Decode.Shapes.{IsU32, PairFits, Rebuilds}

pairs_bytes : List ExtensionPair → Bytes
pairs_bytes [] = []
pairs_bytes (e ∷ es) = string_bytes e.name ++ (string_bytes e.value ++ pairs_bytes es)

marshal_pairs_lem : (b : Bytes) (es : List ExtensionPair) → marshal_pairs b es ≡ b ++ pairs_bytes es
unfolding marshal_pairs pairs_bytes
marshal_pairs_lem b [] = rw append-nil
marshal_pairs_lem b (e ∷ es) =
    marshal_pairs_lem (marshal_string (marshal_string b e.name) e.value) es ∙ simp encoded

-- One round of the loop over the pairs: a string takes four bytes, so there is input left.
pair_round :
    (fuel version : ℕ) (exts : List ExtensionPair) (e : ExtensionPair) (rest b : Bytes)
    → PairFits e
    → b ≡ string_bytes e.name ++ (string_bytes e.value ++ rest)
    → unmarshal_pairs (suc fuel) version exts b ≡ unmarshal_pairs fuel version (exts ++ e ∷ []) rest
unfolding unmarshal_pairs
pair_round fuel version exts e rest [] h q = absurd (
    omega (
      arith,
      ap length q,
      length-append (string_bytes e.name) (string_bytes e.value ++ rest),
      length-string_bytes e.name,
    ))
pair_round fuel version exts e rest (x ∷ xs) (hn, hv) q = rw q (simp (decoded, hn, hv))

unmarshal_pairs_lem :
    (es exts : List ExtensionPair) (fuel version : ℕ)
    → All PairFits es
    → length (pairs_bytes es) ≤ fuel
    → unmarshal_pairs fuel version exts (pairs_bytes es) ≡ done (init version (exts ++ es))
unfolding pairs_bytes
unmarshal_pairs_lem [] exts fuel version h hf = rw append-nil (unfold unmarshal_pairs in refl)
unmarshal_pairs_lem (e ∷ es) exts zero version h hf = absurd (
    omega (
      arith,
      length-append (string_bytes e.name) (string_bytes e.value ++ pairs_bytes es),
      length-string_bytes e.name,
    ))
unmarshal_pairs_lem (e ∷ es) exts (suc fuel) version (he, hes) hf =
    pair_round fuel version exts e (pairs_bytes es) _ he refl
    ∙ unmarshal_pairs_lem es (exts ++ e ∷ []) fuel version hes (
        omega (
          arith,
          length-append (string_bytes e.name) (string_bytes e.value ++ pairs_bytes es),
          length-append (string_bytes e.value) (pairs_bytes es),
          length-string_bytes e.name,
        ))
    ∙ ap (λ l. done (init version l)) (append_assoc exts (e ∷ []) es)

pub init-Rebuilds :
    (version : ℕ) (exts : List ExtensionPair)
    → IsU32 version
    → All PairFits exts
    → Rebuilds Fxp.init (marshal_init version exts) [] (init version exts)
unfolding marshal_init make_packet unmarshal_init
init-Rebuilds version exts hv he = (
  uint32_bytes version ++ pairs_bytes exts,
  simp (marshal_pairs_lem, encoded),
  simp (append-nil, append_assoc, decoded, hv)
      (unmarshal_pairs_lem exts [] (length (pairs_bytes exts)) version he (omega arith)),
)
