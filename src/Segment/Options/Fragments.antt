-- ===== src/Segment/Options/Fragments.antt =====
-- The fragments that a build or a training accepts.
use lance_c.Prelude.{
  ℕ, zero, suc, ◌≤◌, ◌<◌, Option, none, some, Bool, true, false, not, List, [], ◌∷◌, All, length,
  ok, past_guard, ok_of_bind, ok_inj, ◌≡◌, ◌↔◌, ◌⊎◌, refl, sym, ltb, ◌&&◌, arith, inl, inr,
}
use lance_c.Scanner.Setters.{Slice, null, buffer}
use lance_c.Segment.Options.{
  max_fragments, mem, existing, check_unique, check_existing, parse_fragment_ids, check_each,
  parse_fragments,
}

-- no id is in the list twice
abbrev pub Distinct : List ℕ → Type 0
Distinct [] = Unit
Distinct (id ∷ ids) = (mem id ids ≡ false) × Distinct ids

abbrev apart : List ℕ → List ℕ → Bool
apart unique [] = true
apart unique (id ∷ ids) = not (mem id unique) && apart unique ids

apart-cons :
    (unique ids : List ℕ) (id : ℕ)
    → apart (id ∷ unique) ids ≡ (not (mem id ids) && apart unique ids)
apart-cons unique [] id = refl
apart-cons unique (i ∷ ids) id = ground (arith, apart-cons unique ids id)

apart_nil : (ids : List ℕ) → apart [] ids ≡ true
apart_nil [] = refl
apart_nil (id ∷ ids) = apart_nil ids

unique_lem :
    (unique ids : List ℕ)
    → (check_unique unique ids ≡ ok tt) ↔ ((apart unique ids ≡ true) × Distinct ids)
unique_lem unique [] = (λ h. (refl, tt), λ h. refl)
unique_lem unique (id ∷ ids) =
    let (f, g) = unique_lem (id ∷ unique) ids in
    let a = apart-cons unique ids id in
    (
      λ h.
          let (m, r) = past_guard (not (mem id unique)) _ _ h in
          let (p, d) = f r in (ground (arith, m, p, a), (ground (arith, p, a), d)),
      λ h. ground (arith, g (ground (arith, h, a), h.1.1), h.0),
    )

existing_lem :
    (fragments ids : List ℕ)
    → (check_existing fragments ids ≡ ok tt) ↔ All (λ id. mem id (existing fragments) ≡ true) ids
existing_lem fragments [] = (λ h. tt, λ h. refl)
existing_lem fragments (id ∷ ids) =
    let (f, g) = existing_lem fragments ids in
    (
      λ h. let (m, r) = past_guard (mem id (existing fragments)) _ _ h in (m, f r),
      λ h. ground (arith, h.0, g h.1),
    )

-- in one loop or in two
each_lem :
    (fragments unique ids : List ℕ)
    → (check_each fragments unique ids ≡ ok tt)
      ↔ ((check_unique unique ids ≡ ok tt) × (check_existing fragments ids ≡ ok tt))
each_lem fragments unique [] = (λ h. (refl, refl), λ h. refl)
each_lem fragments unique (id ∷ ids) =
    let (f, g) = each_lem fragments (id ∷ unique) ids in
    (
      λ h.
          let (m, r) = past_guard (not (mem id unique)) _ _ h in
          let (n, s) = past_guard (mem id (existing fragments)) _ _ r in
          (ground (arith, m, f s), ground (arith, n, f s)),
      λ h.
          let (m, r) = past_guard (not (mem id unique)) _ _ h.0 in
          let (n, s) = past_guard (mem id (existing fragments)) _ _ h.1 in
          ground (arith, m, n, g (r, s)),
    )

-- Ids that a build can be given: there are some, not too many for a slice, none twice, and each is a
-- fragment of the dataset.
pub record Usable (fragments ids : List ℕ) : Type 0 where
  pub some_ids : 0 < length ids
  pub bound : length ids ≤ max_fragments
  pub distinct : Distinct ids
  pub known : All (λ id. mem id (existing fragments) ≡ true) ids

buffer_ids :
    (fragments : List ℕ) (id : ℕ) (ids : List ℕ) {r : Option (List ℕ)}
    → parse_fragment_ids fragments (buffer (id ∷ ids)) ≡ ok r
    → (r ≡ some (id ∷ ids)) × Usable fragments (id ∷ ids)
unfolding parse_fragment_ids
buffer_ids fragments id ids h =
    let (b, h1) = past_guard (not (ltb max_fragments (length (id ∷ ids)))) _ _ h in
    let (_, u, h2) = ok_of_bind (check_unique [] (id ∷ ids)) _ h1 in
    let (_, e, h3) = ok_of_bind (check_existing fragments (id ∷ ids)) _ h2 in
    (
      sym (ok_inj h3),
      record {
        some_ids = omega arith;
        bound = ground (arith, b);
        distinct = ((unique_lem [] (id ∷ ids)).0 u).1;
        known = (existing_lem fragments (id ∷ ids)).0 e;
      },
    )

accept_ids :
    (fragments ids : List ℕ)
    → Usable fragments ids
    → parse_fragment_ids fragments (buffer ids) ≡ ok (some ids)
unfolding parse_fragment_ids
accept_ids fragments [] u = ground (arith, u.some_ids)
accept_ids fragments (id ∷ ids) u = ground (
  arith,
  u.bound,
  (unique_lem [] (id ∷ ids)).1 (apart_nil (id ∷ ids), u.distinct),
  (existing_lem fragments (id ∷ ids)).1 u.known,
)

-- The fragments of a build are the whole dataset when the pointer is NULL and the count 0, and else
-- exactly the given ids, which are accepted if and only if they are usable.
pub parse_fragment_ids_lem :
    (fragments : List ℕ) (s : Slice) (r : Option (List ℕ))
    → (parse_fragment_ids fragments s ≡ ok r) ↔ (
        ((s ≡ null 0) × (r ≡ none))
        ⊎ ((ids : List ℕ) × (s ≡ buffer ids) × (r ≡ some ids) × Usable fragments ids))
unfolding parse_fragment_ids
parse_fragment_ids_lem fragments s r = (
  accepted s,
  λ h. elim h [
    | inl (p, q) ↦ rw (p, q) refl
    | inr (ids, p, q, u) ↦ rw (p, q) (accept_ids fragments ids u)
  ],
)
  where
    accepted :
        (t : Slice)
        → parse_fragment_ids fragments t ≡ ok r
        → ((t ≡ null 0) × (r ≡ none))
          ⊎ ((ids : List ℕ) × (t ≡ buffer ids) × (r ≡ some ids) × Usable fragments ids)
    accepted (null zero) h = inl (refl, sym (ok_inj h))
    accepted (null (suc n)) h = cc
    accepted (buffer []) h = cc
    accepted (buffer (id ∷ ids)) h =
        let (p, u) = buffer_ids fragments id ids h in inr (id ∷ ids, refl, p, u)

-- A trainer, which reads the fragments in one loop, accepts the same as a build, with the same
-- result.
parse_fragments_same :
    (fragments : List ℕ) (s : Slice) (r : Option (List ℕ))
    → (parse_fragments fragments s ≡ ok r) ↔ (parse_fragment_ids fragments s ≡ ok r)
unfolding parse_fragments parse_fragment_ids
parse_fragments_same fragments (null zero) r = (λ h. h, λ h. h)
parse_fragments_same fragments (null (suc n)) r = (λ h. cc, λ h. cc)
parse_fragments_same fragments (buffer []) r = (λ h. cc, λ h. cc)
parse_fragments_same fragments (buffer (id ∷ ids)) r =
    let (f, g) = each_lem fragments [] (id ∷ ids) in
    (
      λ h.
          let (b, h1) = past_guard (not (ltb max_fragments (length (id ∷ ids)))) _ _ h in
          let (_, e, h2) = ok_of_bind (check_each fragments [] (id ∷ ids)) _ h1 in
          ground (arith, b, f e, h2),
      λ h.
          let (b, h1) = past_guard (not (ltb max_fragments (length (id ∷ ids)))) _ _ h in
          let (_, u, h2) = ok_of_bind (check_unique [] (id ∷ ids)) _ h1 in
          let (_, e, h3) = ok_of_bind (check_existing fragments (id ∷ ids)) _ h2 in
          ground (arith, b, g (u, e), h3),
    )
