-- ===== src/Wire/Cursor.antt =====
-- One round of the message walk, from the bytes that start at its offset.
use edge_feed_spec.Base.{
  ℕ, ◌+◌, ◌-◌, ◌≤◌, ◌≡◌, refl, List, [], ◌∷◌, arith, length, take, drop, length-drop, ap,
}
use edge_feed_spec.Base.Slices.{get_elem?-add, drop-add}
use edge_feed_spec.Base.Exec.{done, index}
use edge_feed_spec.Base.Bytes.{le_value, read_le, slice}
use edge_feed_spec.Wire.Decode.{taken, take_message}

module _ (raw : List ℕ) (off : ℕ) {a b c e : ℕ} {rest : List ℕ}
    (here : drop off raw ≡ a ∷ b ∷ c ∷ e ∷ rest) where
  pub length-here : length raw ≡ off + 4 + length rest
  length-here = omega (arith, ap (length {0}) here, length-drop off raw)

  index_type : index raw off ≡ done a
  unfolding index
  index_type = ground (arith, get_elem?-add raw off 0)

  pub index_length : index raw (off + 1) ≡ done b
  unfolding index
  index_length = rw (get_elem?-add raw off 1, here) refl

  read_flags : read_le raw (off + 2) 2 ≡ done (le_value (c ∷ e ∷ []))
  unfolding read_le
  read_flags = ground (arith, drop-add raw off 2, length-here)

  slice_body :
      (mlen : ℕ)
      → 4 ≤ mlen
      → off + mlen ≤ length raw
      → slice raw (off + 4) (off + mlen) ≡ done (take (mlen - 4) rest)
  unfolding slice
  slice_body mlen h k = ground (arith, drop-add raw off 4, length-here, sub_sub)
    where
      sub_sub : off + mlen - (off + 4) ≡ mlen - 4
      sub_sub = omega arith

  -- A message whose bytes are all there is taken, with the fields where the layout puts them.
  pub take_message_here :
      (mlen : ℕ)
      → 4 ≤ mlen
      → off + mlen ≤ length raw
      → take_message raw off mlen
        ≡ done (
            taken (record {
              type_id = a;
              msg_length = mlen;
              flags = le_value (c ∷ e ∷ []);
              body = take (mlen - 4) rest;
              offset = off;
            }))
  unfolding take_message
  take_message_here mlen h k = rw (index_type, read_flags, slice_body mlen h k) refl
