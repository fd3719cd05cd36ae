-- ===== src/Index/Lifecycle/Segments.antt =====
-- The count and the list of an index's segments agree.
use lance_c.Prelude.{
  ℕ, ◌*◌, ◌≤◌, ◌<◌, String, true, false, not, List, [], ◌∷◌, All, length, length-append, Result, ok,
  err, ok_of_bind, past_guard, ok_inj, ◌≡◌, refl, ap, ◌∙◌, ltb, ◌==◌, arith,
}
use lance_c.Ffi.LastError.{LanceError}
use lance_c.Scanner.Config.{invalid}
use lance_c.Helpers.{CString}
use lance_c.Index.Lifecycle.{
  IndexEntry, named, index_name_of, index_segment_count, uuid_bytes, list_segments,
}

-- UUIDs of 16 bytes
abbrev pub HasUuid : IndexEntry → Type 0
HasUuid i = length i.uuid ≡ 16

named-All : (name : String) (is : List IndexEntry) → All HasUuid is → All HasUuid (named name is)
named-All name [] h = tt
named-All name (i ∷ is) h = ground (arith, h.0, named-All name is h.1)

length-uuid_bytes :
    (is : List IndexEntry) → All HasUuid is → length (uuid_bytes is) ≡ length is * 16
length-uuid_bytes [] h = refl
length-uuid_bytes (i ∷ is) h =
    length-append i.uuid (uuid_bytes is) ∙ omega (arith, h.0, length-uuid_bytes is h.1)

-- what a count that succeeds has found
record Counted (indices : Result LanceError (List IndexEntry)) (index_name : CString) (n : ℕ)
    : Type 0 where
  name : String
  parsed : index_name_of index_name ≡ ok name
  entries : List IndexEntry
  loaded : indices ≡ ok entries
  some_segments : not (length (named name entries) == 0) ≡ true
  count : length (named name entries) ≡ n

count-Counted :
    (indices : Result LanceError (List IndexEntry)) (index_name : CString) {n : ℕ}
    → index_segment_count indices index_name ≡ ok n
    → Counted indices index_name n
unfolding index_segment_count
count-Counted indices index_name h =
    let (name, p, h1) = ok_of_bind (index_name_of index_name) _ h in
    let (entries, q, h2) = ok_of_bind indices _ h1 in
    let (s, h3) = past_guard (not (length (named name entries) == 0)) _ _ h2 in
    record {
      name = name;
      parsed = p;
      entries = entries;
      loaded = q;
      some_segments = s;
      count = ok_inj h3;
    }

enough : (capacity n : ℕ) → n ≤ capacity → not (ltb capacity n) ≡ true
enough capacity n h = ground (arith, h)

small : (capacity n : ℕ) → capacity < n → not (ltb capacity n) ≡ false
small capacity n h = ground (arith, h)

-- The count of an index's segments is the capacity that its list needs: with it, or more, 16 bytes
-- are written for each segment and the same count is returned; with less, nothing is.
pub list_segments_lem :
    (indices : Result LanceError (List IndexEntry)) (index_name : CString) (n capacity : ℕ)
    → index_segment_count indices index_name ≡ ok n
    → ((is : List IndexEntry) → indices ≡ ok is → All HasUuid is)
    → ((n ≤ capacity)
        → (bytes : List ℕ) × (list_segments indices index_name true capacity ≡ ok (bytes, n))
          × (length bytes ≡ n * 16))
      × ((capacity < n)
          → list_segments indices index_name true capacity
            ≡ err (invalid "out_uuids capacity too small for segments"))
unfolding list_segments
list_segments_lem indices index_name n capacity h u =
    let c = count-Counted indices index_name h in
    let segments = named c.name c.entries in
    let a = named-All c.name c.entries (u c.entries c.loaded) in
    (
      λ l. (
        uuid_bytes segments,
        rw (c.parsed, c.loaded, c.some_segments, c.count, enough capacity n l) refl,
        length-uuid_bytes segments a ∙ ap (λ k. k * 16) c.count,
      ),
      λ l. rw (c.parsed, c.loaded, c.some_segments, c.count, small capacity n l) refl,
    )
