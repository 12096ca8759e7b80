-- ===== src/Schema/Registry.antt =====
-- The registry in whatever order its map is ranged over.
use modelwrap.Prelude.{
  ℕ, zero, suc, ◌≡◌, ◌≢◌, ◌≤◌, ◌⊎◌, inl, inr, refl, ap, ◌∙◌, true, List, [], ◌∷◌, map, Bytes, arith,
  ok, err, ◌==◌, if◌then◌else◌,
}
use modelwrap.Schema.{
  PackSchema, unknown_schema, insert, sort, schema_ids, schema_by_id, pack_schemas,
}

-- A list in another order, by exchanges of neighbours.
pub data Reordered : List PackSchema → List PackSchema → Type 0 where
  same : (xs : List PackSchema) → Reordered xs xs
  behind :
      (x : PackSchema) {xs ys : List PackSchema} → Reordered xs ys → Reordered (x ∷ xs) (x ∷ ys)
  exchange : (x y : PackSchema) (xs : List PackSchema) → Reordered (x ∷ y ∷ xs) (y ∷ x ∷ xs)
  both : {xs ys zs : List PackSchema} → Reordered xs ys → Reordered ys zs → Reordered xs zs

insert_comm : (a b : ℕ) (l : List ℕ) → insert a (insert b l) ≡ insert b (insert a l)
unfolding insert
insert_comm a b [] = ground arith
insert_comm a b (m ∷ rest) = ground (arith, insert_comm a b rest)

-- Each id is at most the next.
abbrev pub IsAscending : List ℕ → Type 0
IsAscending [] = Unit
IsAscending (a ∷ []) = Unit
IsAscending (a ∷ b ∷ l) = (a ≤ b) × IsAscending (b ∷ l)

insert-IsAscending : (a : ℕ) (l : List ℕ) → IsAscending l → IsAscending (insert a l)
unfolding insert
insert-IsAscending a [] h = tt
insert-IsAscending a (b ∷ []) h = ground arith
insert-IsAscending a (b ∷ c ∷ l) h = ground (arith, insert-IsAscending a (c ∷ l) h.1)

sort-IsAscending : (l : List ℕ) → IsAscending (sort l)
unfolding sort
sort-IsAscending [] = tt
sort-IsAscending (a ∷ l) = insert-IsAscending a (sort l) (sort-IsAscending l)

sort-Reordered : {xs ys : List PackSchema} → Reordered xs ys → schema_ids xs ≡ schema_ids ys
unfolding schema_ids sort
sort-Reordered (same xs) = refl
sort-Reordered (behind x r) = ap (insert x.id) (sort-Reordered r)
sort-Reordered (exchange x y xs) = insert_comm x.id y.id (schema_ids xs)
sort-Reordered (both r q) = sort-Reordered r ∙ sort-Reordered q

-- How often a number is in a list.
unfoldable pub occurrences : ℕ → List ℕ → ℕ
occurrences n [] = 0
occurrences n (m ∷ rest) = let more = occurrences n rest in if m == n then suc more else more

occurrences-insert : (n a : ℕ) (l : List ℕ) → occurrences n (insert a l) ≡ occurrences n (a ∷ l)
unfolding insert occurrences
occurrences-insert n a [] = refl
occurrences-insert n a (m ∷ rest) = ground (arith, occurrences-insert n a rest)

occurrences-sort : (n : ℕ) (l : List ℕ) → occurrences n (sort l) ≡ occurrences n l
unfolding sort occurrences
occurrences-sort n [] = refl
occurrences-sort n (a ∷ l) = ground (arith, occurrences-insert n a (sort l), occurrences-sort n l)

-- The list of supported ids is ascending, holds each id as often as the registry does and no other
-- number, and is the same in whatever order the map is ranged over.
pub schema_ids-Reordered :
    (xs ys : List PackSchema)
    → Reordered xs ys
    → IsAscending (schema_ids xs)
      × ((n : ℕ)
          → occurrences n (schema_ids xs) ≡ occurrences n (map (λ (s : PackSchema). s.id) xs))
      × (schema_ids xs ≡ schema_ids ys)
unfolding schema_ids
schema_ids-Reordered xs ys r = (
  sort-IsAscending (map (λ (s : PackSchema). s.id) xs),
  (λ n. occurrences-sort n (map (λ (s : PackSchema). s.id) xs)),
  sort-Reordered r,
)

-- The registered schemas are those with the ids 1 and 2: for these the lookup returns the schema of
-- that id, which is stable, and for any other id an error that lists the supported ids.
pub schema_by_id-cases :
    (uuid_v5_url : Bytes → Bytes) (num_cpu id : ℕ)
    → ((s : PackSchema) × (schema_by_id (pack_schemas uuid_v5_url num_cpu) id ≡ ok s)
        × (s.id ≡ id)
        × (s.stable ≡ true)
        × ((id ≡ 1) ⊎ (id ≡ 2)))
      ⊎ ((schema_by_id (pack_schemas uuid_v5_url num_cpu) id ≡ err (unknown_schema id (1 ∷ 2 ∷ [])))
          × (id ≢ 1)
          × (id ≢ 2))
unfolding schema_by_id schema_ids
schema_by_id-cases u n zero = inr (refl, omega arith, omega arith)
schema_by_id-cases u n (suc zero) = inl (_, refl, refl, refl, inl refl)
schema_by_id-cases u n (suc (suc zero)) = inl (_, refl, refl, refl, inr refl)
schema_by_id-cases u n (suc (suc (suc id))) = inr (ground arith, omega arith, omega arith)
