-- ===== src/Wire/Frame/Builder.antt =====
-- `rbp_txframe_begin`, `rbp_txframe_payload` and `rbp_txframe_commit` against `rbp_frame_encode`.
use mi_remote_usb_bridge.Base.{
  ℕ, ◌+◌, ◌-◌, ◌≤◌, ◌≡◌, refl, sym, ap, ◌∙◌, arith, List, [], ◌∷◌, ◌++◌, length, length-append,
  append-nil, append_assoc, true, ltb, ge→ltb, if◌then◌else◌, some, Bool-cases, inl, inr,
}
use mi_remote_usb_bridge.Wire.Header.{Header}
use mi_remote_usb_bridge.Wire.Frame.{
  TxFrame, TxSeq, txframe_begin, txframe_payload, txframe_commit, frame_encode, encode_payload,
  max_payload,
}

-- The pieces of a payload, handed over one by one.
pub append_pieces : TxFrame → List (List ℕ) → TxFrame
append_pieces f [] = f
append_pieces f (p ∷ ps) = append_pieces (txframe_payload f p).0 ps

abbrev pub concat : List (List ℕ) → List ℕ
concat [] = []
concat (p ∷ ps) = p ++ concat ps

txframe_payload_fits :
    (f : TxFrame) (p : List ℕ)
    → length f.payload + length p ≤ max_payload
    → txframe_payload f p ≡ (record f { payload = f.payload ++ p }, true)
unfolding txframe_payload
txframe_payload_fits f p h = rw (
  ge→ltb max_payload (length f.payload) (omega arith),
  ge→ltb (max_payload - length f.payload) (length p) (omega arith),
)

append_pieces-concat :
    (f : TxFrame) (ps : List (List ℕ))
    → length f.payload + length (concat ps) ≤ max_payload
    → append_pieces f ps ≡ record f { payload = f.payload ++ concat ps }
unfolding append_pieces
append_pieces-concat f [] h = ap (λ l. record f { payload = l }) (sym (append-nil f.payload))
append_pieces-concat f (p ∷ ps) h =
    ap (λ r. append_pieces r.0 ps)
      (txframe_payload_fits f p (omega (arith, length-append p (concat ps))))
    ∙ append_pieces-concat (record f { payload = f.payload ++ p }) ps
        (omega (arith, length-append p (concat ps), length-append f.payload p))
    ∙ ap (λ l. record f { payload = l }) (append_assoc f.payload p (concat ps))

-- A payload of at most `max_payload` bytes, in any pieces, is sent as `rbp_frame_encode` sends it
-- whole: the same bytes, and the same next sequence number.
pub txframe_commit-append_pieces :
    (h : Header) (seq : TxSeq) (ps : List (List ℕ))
    → length (concat ps) ≤ max_payload
    → let (out, f, seq') = txframe_commit (append_pieces (txframe_begin h) ps) seq in
      (out, seq') ≡ frame_encode h seq (some (concat ps)) (length (concat ps))
unfolding txframe_commit frame_encode
txframe_commit-append_pieces h seq ps fits =
    ap (λ f. let e = encode_payload f.hdr seq (some f.payload) (length f.payload) in (e.out, e.seq))
      (append_pieces-concat (txframe_begin h) ps (omega arith))

-- Whatever pieces are handed over, the payload stays within `max_payload`: a piece that does not
-- fit is refused and leaves the frame as it was.
pub txframe_payload_bound :
    (f : TxFrame) (p : List ℕ)
    → length f.payload ≤ max_payload
    → let (f', taken) = txframe_payload f p in
      (length f'.payload ≤ max_payload)
      × (f' ≡ (if taken then record f { payload = f.payload ++ p } else f))
unfolding txframe_payload
txframe_payload_bound f p h = elim (Bool-cases (ltb (max_payload - length f.payload) (length p))) [
  | inl e ↦ rw (ge→ltb max_payload (length f.payload) h, e) (h, refl)
  | inr e ↦
      rw (ge→ltb max_payload (length f.payload) h, e)
        (ground (arith, length-append f.payload p), refl)
]
