-- ===== src/Segment/Metadata/Copy.antt =====
-- What the accessors of a metadata handle copy out, and the codes of index types that they return.
use lance_c.Prelude.{
  ℕ, ◌≤◌, ◌<◌, Option, some, true, false, List, [], ◌∷◌, ◌++◌, length, Result, ok, err, ◌≡◌, refl,
  ap, ◌∙◌, sym, ltb, arith,
}
use lance_c.Ffi.LastError.{LanceError}
use lance_c.Scanner.Config.{invalid}
use lance_c.Segment.Metadata.{
  MetadataHandle, overwrite, copy_ids, metadata_field_count, metadata_field_ids,
  metadata_fragment_count, metadata_fragment_ids,
}

fits : (n capacity : ℕ) → n ≤ capacity → ltb capacity n ≡ false
fits n capacity h = ground (arith, h)

module _ {A : Type 0} where
  overwrite_lem :
      (ids buffer : List A)
      → length ids ≤ length buffer
      → (rest : List A) × (overwrite ids buffer ≡ ids ++ rest)
        × (length (overwrite ids buffer) ≡ length buffer)
  overwrite_lem [] buffer h = (buffer, refl, refl)
  overwrite_lem (i ∷ ids) [] h = ground (arith, h)
  overwrite_lem (i ∷ ids) (b ∷ buffer) h =
      let (rest, p, q) = overwrite_lem ids buffer (omega (arith, h)) in
      (rest, ap (λ l. i ∷ l) p, omega (arith, q))

  copy_lem :
      (ids buffer : List A) (capacity : ℕ)
      → length buffer ≡ capacity
      → length ids ≤ capacity
      → (rest : List A) × (length (ids ++ rest) ≡ capacity)
        × (copy_ids ids (some buffer) capacity true ≡ ok (some (ids ++ rest), length ids))
  unfolding copy_ids
  copy_lem ids buffer capacity b h =
      let (rest, p, q) = overwrite_lem ids buffer (omega (arith, b, h)) in
      (rest, ap length (sym p) ∙ q ∙ b, rw (fits (length ids) capacity h, p) (ground arith))

  too_small :
      (ids : List A) (out : Option (List A)) (capacity : ℕ)
      → capacity < length ids
      → copy_ids ids out capacity true ≡ err (invalid "capacity is smaller than the count")
  unfolding copy_ids
  too_small ids out capacity h = ground (arith, h)

  -- What an accessor of ids promises: with the room that the count asks for, the ids stand in order
  -- at the beginning of the buffer, which keeps its length; with less room it is refused.
  abbrev pub Reads :
      List A → (Option (List A) → ℕ → Result LanceError (Option (List A) × ℕ)) → Type 0
  Reads ids read =
      (buffer : List A)
      → ((length ids ≤ length buffer)
          → (rest : List A) × (length (ids ++ rest) ≡ length buffer)
            × (read (some buffer) (length buffer) ≡ ok (some (ids ++ rest), length ids)))
        × ((length buffer < length ids)
            → read (some buffer) (length buffer)
              ≡ err (invalid "capacity is smaller than the count"))

  copy-Reads : (ids : List A) → Reads ids (λ out capacity. copy_ids ids out capacity true)
  copy-Reads ids buffer = (
    λ h. copy_lem ids buffer (length buffer) refl h,
    λ h. too_small ids (some buffer) (length buffer) h,
  )

-- The count accessors give the room that the copies need: with it the field ids and the fragment ids
-- are copied in order to the beginning of the caller's buffer, which keeps its length, and with less
-- the copy is refused.
pub metadata_ids_read :
    (m : MetadataHandle)
    → (metadata_field_count (some m) ≡ ok (length m.metadata.fields))
      × Reads m.metadata.fields (λ out capacity. metadata_field_ids (some m) out capacity true)
      × (metadata_fragment_count (some m) ≡ ok (length m.fragment_ids))
      × Reads m.fragment_ids (λ out capacity. metadata_fragment_ids (some m) out capacity true)
unfolding metadata_field_count metadata_field_ids metadata_fragment_count metadata_fragment_ids
metadata_ids_read m = (refl, copy-Reads m.metadata.fields, refl, copy-Reads m.fragment_ids)
