-- ===== src/Segment/Metadata/Commit/Exact.antt =====
-- A commit reads its arguments exactly: it goes through just for what they ask for.
use lance_c.Prelude.{
  ℕ, zero, suc, ◌≤◌, ◌<◌, ◌^◌, ℤ, pos, negsuc, String, Option, none, some, Bool, true, false, not,
  List, [], ◌∷◌, length, all, Result, ok, err, ok_or, ok_of_bind, past_guard, ok_inj, some_of_ok_or,
  ◌≡◌, refl, ap, subst, ◌⊎◌, inl, inr, ltb, ◌==◌, ◌&&◌, arith, Bool-cases,
}
use text.Mathlib.Text.{◌==◌ as str_eq}
use lance_c.Ffi.Outcome.{pure}
use lance_c.Ffi.LastError.{LanceError}
use lance_c.Scanner.Config.{invalid}
use lance_c.Helpers.{
  is_null, CString, null, utf8, bytes, parse_c_string, required_string, non_empty,
}
use lance_c.Dataset.{Mutation, with_mut}
use lance_c.Segment.Metadata.{
  IndexMetadata, Decoder, max_bytes, decode_segment_metadata, is_negative, in_range, has_version,
}
use lance_c.Segment.Metadata.Commit.{
  Buffers, max_segments, CommitRequest, take, decode_buffer, decode_all, commit_request,
  then_commit, commit_index_segments,
}
use lance_c.Segment.Metadata.Commit.Asked.{
  Given, IsTime, IsNatural, IsVersion, AllNatural, Segment, Segments, done, short, next, Asked,
}

filled :
    (s message : String) {t : String}
    → non_empty (some s) message ≡ ok t
    → (s ≡ t) × (str_eq s "" ≡ false)
filled s message h = elim (Bool-cases (str_eq s "")) [
  | inl e ↦ cc
  | inr e ↦ (ground (arith, e, h), e)
]

required_string-Given :
    (c : CString) (message : String) {s : String} → required_string c message ≡ ok s → Given c s
unfolding required_string parse_c_string
required_string-Given null message h = cc
required_string-Given bytes message h = cc
required_string-Given (utf8 s) message h =
    let (e, f) = filled s message h in (ap utf8 e, subst (λ t. str_eq t "" ≡ false) e f)

Given-required_string :
    (c : CString) (message s : String) → Given c s → required_string c message ≡ ok s
unfolding required_string parse_c_string
Given-required_string c message s (e, f) = rw (e, f) refl

is_null-Given : (c : CString) (s : String) → Given c s → is_null c ≡ false
is_null-Given c s (e, f) = rw e refl

in_range-IsTime : (f : ℕ → Bool) (o : Option ℕ) → in_range f o ≡ true → IsTime f o
in_range-IsTime f none h = tt
in_range-IsTime f (some n) h = (ground (arith, h), ground (arith, h))

IsTime-in_range : (f : ℕ → Bool) (o : Option ℕ) → IsTime f o → in_range f o ≡ true
IsTime-in_range f none h = refl
IsTime-in_range f (some n) (a, b) = ground (arith, a, b)

is_negative-IsNatural : (z : ℤ) → is_negative z ≡ false → IsNatural z
is_negative-IsNatural (pos n) h = (n, refl)
is_negative-IsNatural (negsuc n) h = cc

IsNatural-is_negative : (z : ℤ) → IsNatural z → is_negative z ≡ false
IsNatural-is_negative z (n, e) = ap is_negative e

has_version-IsVersion : (o : Option ℤ) → has_version o ≡ true → IsVersion o
has_version-IsVersion none h = tt
has_version-IsVersion (some z) h = is_negative-IsNatural z (ground (arith, h))

IsVersion-has_version : (o : Option ℤ) → IsVersion o → has_version o ≡ true
IsVersion-has_version none h = refl
IsVersion-has_version (some z) h = ap not (IsNatural-is_negative z h)

all-AllNatural : (zs : List ℤ) → all (λ z. not (is_negative z)) zs ≡ true → AllNatural zs
all-AllNatural [] h = tt
all-AllNatural (z ∷ zs) h =
    (is_negative-IsNatural z (ground (arith, h)), all-AllNatural zs (ground (arith, h)))

AllNatural-all : (zs : List ℤ) → AllNatural zs → all (λ z. not (is_negative z)) zs ≡ true
AllNatural-all [] h = refl
AllNatural-all (z ∷ zs) (a, b) = ground (arith, IsNatural-is_negative z a, AllNatural-all zs b)

module _ (x : Decoder) where
  decode_buffer-Segment :
      (b : Option (List ℕ)) {m : IndexMetadata} → decode_buffer x b ≡ ok m → Segment x b m
  unfolding decode_segment_metadata
  decode_buffer-Segment none h = cc
  decode_buffer-Segment (some buffer) h =
      let (a, h1) = past_guard (not (length buffer == 0)) _ _ h in
      let (b, h2) = past_guard (not (ltb max_bytes (length buffer))) _ _ h1 in
      let (proto, p, h3) = ok_of_bind (x.decode buffer) _ h2 in
      let (t, h4) = past_guard (in_range x.is_timestamp proto.created_at) _ _ h3 in
      let (v, h5) = past_guard (has_version proto.index_version) _ _ h4 in
      let (f, h6) = past_guard (all (λ z. not (is_negative z)) proto.fields) _ _ h5 in
      record {
        buffer = buffer;
        there = refl;
        filled = ground (arith, a);
        addressable = ground (arith, b);
        proto = proto;
        decoded = p;
        time = in_range-IsTime x.is_timestamp proto.created_at t;
        version = has_version-IsVersion proto.index_version v;
        fields = all-AllNatural proto.fields f;
        converted = h6;
      }

  Segment-decode_buffer :
      (b : Option (List ℕ)) (m : IndexMetadata) → Segment x b m → decode_buffer x b ≡ ok m
  unfolding decode_segment_metadata
  Segment-decode_buffer b m s =
      rw
        (
          s.there,
          zero_test (length s.buffer) s.filled,
          bytes_test (length s.buffer) s.addressable,
          s.decoded,
          IsTime-in_range x.is_timestamp s.proto.created_at s.time,
          IsVersion-has_version s.proto.index_version s.version,
          AllNatural-all s.proto.fields s.fields,
        )
        s.converted
    where
      zero_test : (n : ℕ) → 0 < n → (n == 0) ≡ false
      zero_test n h = ground (arith, h)

      bytes_test : (n : ℕ) → n < 2 ^ 63 → ltb max_bytes n ≡ false
      bytes_test n h = ground (arith, h)

  decode_all-Segments :
      (n : ℕ) (bs : Buffers) {ms : List IndexMetadata}
      → decode_all x (take n bs) ≡ ok ms
      → Segments x n bs ms
  decode_all-Segments zero bs h = subst (Segments x 0 bs) (ok_inj h) (done bs)
  decode_all-Segments (suc n) [] h = subst (Segments x (suc n) []) (ok_inj h) (short n)
  decode_all-Segments (suc n) (b ∷ bs) h =
      let (m, p, h1) = ok_of_bind (decode_buffer x b) _ h in
      let (ms, q, h2) = ok_of_bind (decode_all x (take n bs)) _ h1 in
      subst (Segments x (suc n) (b ∷ bs)) (ok_inj h2)
        (next n b bs m ms (decode_buffer-Segment b p) (decode_all-Segments n bs q))

  Segments-decode_all :
      {n : ℕ} {bs : Buffers} {ms : List IndexMetadata}
      → Segments x n bs ms
      → decode_all x (take n bs) ≡ ok ms
  Segments-decode_all (done bs) = refl
  Segments-decode_all (short n) = refl
  Segments-decode_all (next n b bs m ms s rest) =
      rw (Segment-decode_buffer b m s, Segments-decode_all rest) refl

  module _ (index_name column : CString) (segment_count : ℕ) (buffers : Option Buffers) where
    commit_request-Asked :
        {request : CommitRequest}
        → commit_request x index_name column segment_count buffers ≡ ok request
        → Asked x index_name column segment_count buffers request
    unfolding commit_request
    commit_request-Asked h =
        let (_, h1) = past_guard (not (is_null index_name) && not (is_null column)) _ _ h in
        let (n, p, h2) =
          ok_of_bind (required_string index_name "index_name must not be NULL or empty") _ h1 in
        let (c, q, h3) =
          ok_of_bind (required_string column "column must not be NULL or empty") _ h2 in
        let (a, h4) = past_guard (not (segment_count == 0)) _ _ h3 in
        let (bs, r, h5) =
          ok_of_bind
            (ok_or buffers
              (invalid "segment_metadata_bytes and segment_metadata_lens must not be NULL"))
            _ h4 in
        let (b, h6) = past_guard (not (ltb max_segments segment_count)) _ _ h5 in
        let (ms, t, h7) = ok_of_bind (decode_all x (take segment_count bs)) _ h6 in
        subst (Asked x index_name column segment_count buffers) (ok_inj h7) (record {
          name = required_string-Given index_name _ p;
          on = required_string-Given column _ q;
          some_segments = ground (arith, a);
          count_fits = ground (arith, b);
          arrays = bs;
          arrays_given = some_of_ok_or _ _ r;
          segments = decode_all-Segments segment_count bs t;
        })

    Asked-commit_request :
        (request : CommitRequest)
        → Asked x index_name column segment_count buffers request
        → commit_request x index_name column segment_count buffers ≡ ok request
    unfolding commit_request
    Asked-commit_request request k =
        rw
          (
            is_null-Given index_name _ k.name,
            is_null-Given column _ k.on,
            Given-required_string index_name "index_name must not be NULL or empty" _ k.name,
            Given-required_string column "column must not be NULL or empty" _ k.on,
            zero_test segment_count k.some_segments,
            k.arrays_given,
            count_test segment_count k.count_fits,
            Segments-decode_all k.segments,
          )
          refl
      where
        zero_test : (n : ℕ) → 0 < n → (n == 0) ≡ false
        zero_test n h = ground (arith, h)

        count_test : (n : ℕ) → n ≤ max_segments → ltb max_segments n ≡ false
        count_test n h = ground (arith, h)

    module _ {D : Type 0} (commit : CommitRequest → Mutation D (Result LanceError (Unit {0}))) where
      either_way :
          (r : Result LanceError CommitRequest)
          → commit_request x index_name column segment_count buffers ≡ r
          → ((e : LanceError) × (then_commit x commit r ≡ pure (err e))
              × ((request : CommitRequest)
                  → ¬ Asked x index_name column segment_count buffers request))
            ⊎ ((request : CommitRequest) × Asked x index_name column segment_count buffers request
                × (then_commit x commit r ≡ with_mut (commit request)))
      either_way (err e) h =
          inl (e, refl, λ request k. let g = Asked-commit_request request k in cc)
      either_way (ok request) h = inr (request, commit_request-Asked h, refl)

      -- A commit either fails before it touches the dataset, and then its arguments ask for nothing;
      -- or it makes the one mutation that hands Lance what they ask for: the caller's index name and
      -- column, which are there and not empty, and the segments of the first `segment_count` buffers
      -- in their order. Each buffer is there, not empty and addressable, and holds a message that
      -- decodes, with its time, version and fields in range, and that Lance converts.
      pub commit_index_segments-Asked :
          ((e : LanceError) × (commit_index_segments x commit index_name column segment_count
                buffers
              ≡ pure (err e))
            × ((request : CommitRequest)
                → ¬ Asked x index_name column segment_count buffers request))
          ⊎ ((request : CommitRequest) × Asked x index_name column segment_count buffers request
              × (commit_index_segments x commit index_name column segment_count buffers
                  ≡ with_mut (commit request)))
      unfolding commit_index_segments
      commit_index_segments-Asked =
          either_way (commit_request x index_name column segment_count buffers) refl
