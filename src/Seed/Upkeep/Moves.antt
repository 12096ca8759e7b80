-- ===== src/Seed/Upkeep/Moves.antt =====
-- The steps of the workers that link, remove or record.
use native.Mathlib.Decide.{ℕ_discrete}
use modelwrap.Prelude.{
  assign_other, assign, ℕ, ◌≡◌, ◌≢◌, inl, inr, refl, sym, ap, ◌∙◌, true, Bool-cases, Option-cases,
  List, Bytes, beq, beq_iff, beq_refl, get_elem?, Option, none, some,
}
use mathlib.Core.Path.{subst}
use modelwrap.Verity.{Sha256}
use modelwrap.Seed.Paths.{clean}
use modelwrap.Seed.{LfsFile, Inode}
use modelwrap.Seed.Workers.{Phase, idle, stopped, linked, Pool, place}
use modelwrap.Seed.Upkeep.{
  IsCopy, held, Tracked, place_self, place_other, IsSettled, Inv, held-assign, held-assign_other,
  held-assign_self, Tracked-assign,
}

module _ (h : Sha256) (mode : ℕ) (files : List LfsFile) (siblings : List Bytes)
    (initial : Bytes → Option Inode) where
  pub Inv-link :
      (s : Pool) (w t : ℕ) (f : LfsFile) (c : Bytes) (rest : List Bytes) (i : Inode)
      → Tracked files (linked t f c rest)
      → held (s.phase w) ≡ none
      → s.target (clean f.path) ≡ none
      → (Inv h mode files siblings initial) s
      → (Inv h mode files siblings initial) (record s {
        phase = assign s.phase w (linked t f c rest);
        target = place s.target (clean f.path) (some i);
      })
  Inv-link s w t f c rest i track was_free empty inv =
      let v : Phase = linked t f c rest in
      let p : Bytes = clean f.path in
      let other : (q : Bytes) (j : Inode)
          → s.target q ≡ some j
          → place s.target p (some i) q ≡ some j =
        λ q j e. place_other s.target p q (some i) (λ same. cc (e, empty, same)) ∙ e in
      let taken : (u : ℕ) (q : Bytes) → held (s.phase u) ≡ some q → some p ≢ some q =
        λ u q k own. let (j, at) = inv.there u q k in cc (at, empty, own) in
      record {
        tracked = (Tracked-assign h mode files siblings initial) s w v track inv.tracked;
        kept = λ q j e. other q j (inv.kept q j e);
        fresh = λ u q e. elim ((held-assign h mode files siblings initial) s w u v q e) [
          | inl (same, own) ↦ elim (Option-cases (initial q)) [
            | inl none_there ↦ none_there
            | inr (j, there) ↦ cc (inv.kept q j there, empty, own)
          ]
          | inr (ne, e') ↦ inv.fresh u q e'
        ];
        there = λ u q e. elim ((held-assign h mode files siblings initial) s w u v q e) [
          | inl (same, own) ↦ (i, cc (place_self s.target p (some i), own))
          | inr (ne, e') ↦ let (j, at) = inv.there u q e' in (j, other q j at)
        ];
        unique = λ u u' q e e'. elim ((held-assign h mode files siblings initial) s w u v q e) [
          | inl (same, own) ↦ elim ((held-assign h mode files siblings initial) s w u' v q e') [
            | inl (same', own') ↦ same ∙ sym same'
            | inr (ne, k) ↦ absurd (taken u' q k own)
          ]
          | inr (ne, k) ↦ elim ((held-assign h mode files siblings initial) s w u' v q e') [
            | inl (same', own') ↦ absurd (taken u q k own')
            | inr (ne', k') ↦ inv.unique u u' q k k'
          ]
        ];
        accounted = λ q j e. elim (Bool-cases (beq q p)) [
          | inl same ↦ inr (
              inr (
                inl (
                  w,
                  (held-assign_self h mode files siblings initial) s w v
                      ∙ ap some (sym ((beq_iff q p).0 same)),
                )))
          | inr differs ↦ elim (inv.accounted q j (sym (rw differs refl) ∙ e)) [
            | inl a ↦ inl a
            | inr (inl a) ↦ inr (inl a)
            | inr (inr (inl (u, a))) ↦ inr (
                inr (
                  inl (
                    u,
                    (held-assign_other h mode files siblings initial) s w u v
                          (λ same. cc (was_free, a, same))
                        ∙ a,
                  )))
            | inr (inr (inr a)) ↦ inr (inr (inr a))
          ]
        ];
        settled = λ t' c' e.
            let k : (IsSettled h mode files siblings initial) s t' = inv.settled t' c' e in
            record {
              file = k.file;
              node = k.node;
              at_index = k.at_index;
              copy = k.copy;
              there = other (clean k.file.path) k.node k.there;
              free = λ u a.
                  elim ((held-assign h mode files siblings initial) s w u v (clean k.file.path) a) [
                    | inl (same, own) ↦ cc (k.there, empty, own)
                    | inr (ne, a') ↦ k.free u a'
                  ];
            };
      }

  -- Behind a step with which `w` holds no path any more.
  pub held-freed :
      (s : Pool) (w u : ℕ) (v : Phase) (q : Bytes)
      → held v ≡ none
      → held (assign s.phase w v u) ≡ some q
      → (u ≢ w) × (held (s.phase u) ≡ some q)
  held-freed s w u v q nothing e = elim ((held-assign h mode files siblings initial) s w u v q e) [
    | inl (same, own) ↦ cc (nothing, own)
    | inr (ne, k) ↦ (ne, k)
  ]

  pub Inv-accept :
      (s : Pool) (w t : ℕ) (f : LfsFile) (c : Bytes) (i : Inode)
      → held (s.phase w) ≡ some (clean f.path)
      → get_elem? files t ≡ some f
      → s.target (clean f.path) ≡ some i
      → IsCopy h mode f i
      → (Inv h mode files siblings initial) s
      → (Inv h mode files siblings initial)
          (record s { phase = assign s.phase w idle; results = assign s.results t (some c) })
  Inv-accept s w t f c i own at found copied inv =
      let p : Bytes = clean f.path in
      let before : (u : ℕ) (q : Bytes)
          → held (assign s.phase w idle u) ≡ some q
          → held (s.phase u) ≡ some q =
        λ u q e. (held-freed s w u idle q refl e).1 in
      record {
        tracked = (Tracked-assign h mode files siblings initial) s w idle tt inv.tracked;
        kept = inv.kept;
        fresh = λ u q e. inv.fresh u q (before u q e);
        there = λ u q e. inv.there u q (before u q e);
        unique = λ u u' q e e'. inv.unique u u' q (before u q e) (before u' q e');
        accounted = λ q j e. elim (inv.accounted q j e) [
          | inl a ↦ inl a
          | inr (inl a) ↦ inr (inl a)
          | inr (inr (inl (u, a))) ↦ elim (ℕ_discrete u w) [
            | yes same ↦ inr (
                inl (record {
                  index = t;
                  lfs_file = f;
                  at_index = at;
                  at_path = cc (own, a, same);
                  copy = subst (IsCopy h mode f) (cc (found, e, own, a, same)) copied;
                }))
            | no ne ↦
                inr (
                  inr
                    (inl (u, (held-assign_other h mode files siblings initial) s w u idle ne ∙ a)))
          ]
          | inr (inr (inr a)) ↦ inr (inr (inr a))
        ];
        settled = λ t' c' e. elim (ℕ_discrete t' t) [
          | yes same ↦ record {
            file = f;
            node = i;
            at_index = ap (get_elem? files) same ∙ at;
            there = found;
            copy = copied;
            free =
                λ u a. let (ne, k) = held-freed s w u idle p refl a in ne (inv.unique u w p k own);
          }
          | no ne ↦
              let k : (IsSettled h mode files siblings initial) s t' =
                inv.settled t' c' (sym (assign_other s.results t t' (some c) ne) ∙ e) in
              record {
                file = k.file;
                node = k.node;
                at_index = k.at_index;
                there = k.there;
                copy = k.copy;
                free = λ u a. k.free u (before u (clean k.file.path) a);
              }
        ];
      }

  pub Inv-remove :
      (s : Pool) (w : ℕ) (v : Phase) (p : Bytes)
      → Tracked files v
      → held v ≡ none
      → held (s.phase w) ≡ some p
      → (Inv h mode files siblings initial) s
      → (Inv h mode files siblings initial)
          (record s { phase = assign s.phase w v; target = place s.target p none })
  Inv-remove s w v p track nothing own inv =
      let other : (q : Bytes) → q ≢ p → place s.target p none q ≡ s.target q =
        λ q ne. place_other s.target p q none ne in
      record {
        tracked = (Tracked-assign h mode files siblings initial) s w v track inv.tracked;
        kept = λ q j e. other q (λ same. cc (inv.fresh w p own, e, same)) ∙ inv.kept q j e;
        fresh = λ u q e. inv.fresh u q (held-freed s w u v q nothing e).1;
        there = λ u q e.
            let (ne, k) = held-freed s w u v q nothing e in
            let (j, at) = inv.there u q k in
            (j, other q (λ same. ne (inv.unique u w q k (cc (own, same)))) ∙ at);
        unique = λ u u' q e e'.
            inv.unique u u' q (held-freed s w u v q nothing e).1
              (held-freed s w u' v q nothing e').1;
        accounted = λ q j e. elim (Bool-cases (beq q p)) [
          | inl same ↦ cc (place_self s.target p none, (beq_iff q p).0 same, e)
          | inr differs ↦ elim (inv.accounted q j (sym (rw differs refl) ∙ e)) [
            | inl a ↦ inl a
            | inr (inl a) ↦ inr (inl a)
            | inr (inr (inl (u, a))) ↦ inr (
                inr (
                  inl (
                    u,
                    (held-assign_other h mode files siblings initial) s w u v
                          (λ same. cc (differs, beq_refl p, own, a, same))
                        ∙ a,
                  )))
            | inr (inr (inr a)) ↦ inr (inr (inr a))
          ]
        ];
        settled = λ t c e.
            let k : (IsSettled h mode files siblings initial) s t = inv.settled t c e in
            record {
              file = k.file;
              node = k.node;
              at_index = k.at_index;
              there =
                  other (clean k.file.path) (λ same. k.free w (own ∙ ap some (sym same))) ∙ k.there;
              copy = k.copy;
              free = λ u a. k.free u (held-freed s w u v (clean k.file.path) nothing a).1;
            };
      }

  pub Inv-remove_failed :
      (s : Pool) (w : ℕ)
      → (Inv h mode files siblings initial) s
      → (Inv h mode files siblings initial)
          (record s { phase = assign s.phase w stopped; first_err = true })
  Inv-remove_failed s w inv =
      let before : (u : ℕ) (q : Bytes)
          → held (assign s.phase w stopped u) ≡ some q
          → held (s.phase u) ≡ some q =
        λ u q e. (held-freed s w u stopped q refl e).1 in
      record {
        tracked = (Tracked-assign h mode files siblings initial) s w stopped tt inv.tracked;
        kept = inv.kept;
        fresh = λ u q e. inv.fresh u q (before u q e);
        there = λ u q e. inv.there u q (before u q e);
        unique = λ u u' q e e'. inv.unique u u' q (before u q e) (before u' q e');
        accounted = λ q j e. inr (inr (inr refl));
        settled = λ t c e.
            let k : (IsSettled h mode files siblings initial) s t = inv.settled t c e in
            record {
              file = k.file;
              node = k.node;
              at_index = k.at_index;
              there = k.there;
              copy = k.copy;
              free = λ u a. k.free u (before u (clean k.file.path) a);
            };
      }

  pub Inv-replace :
      (s : Pool) (candidate : Bytes → Bytes → Option Inode)
      → (Inv h mode files siblings initial) s
      → (Inv h mode files siblings initial) (record s { candidate = candidate })
  Inv-replace s candidate inv = record {
    tracked = inv.tracked;
    kept = inv.kept;
    fresh = inv.fresh;
    there = inv.there;
    unique = inv.unique;
    accounted = inv.accounted;
    settled = λ t c e.
        let k : (IsSettled h mode files siblings initial) s t = inv.settled t c e in
        record {
          file = k.file;
          node = k.node;
          at_index = k.at_index;
          there = k.there;
          copy = k.copy;
          free = k.free;
        };
  }
