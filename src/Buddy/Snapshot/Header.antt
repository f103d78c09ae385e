-- ===== src/Buddy/Snapshot/Header.antt =====
-- The bytes of serializeHeader, read back.
use open_db.Prelude.{
  ℕ, Bool-cases, ◌==◌, ==_iff, zero, suc, ◌≤◌, ◌<◌, ◌≡◌, refl, ◌≢◌, ◌⊎◌, inl, inr, List, [], ◌∷◌,
  ◌++◌, arith, length, drop,
}
use open_db.Value.Bytes.{Reader, return, ok, ◌>>=◌, read_le, le_bytes, read_le-le_bytes, words}
use open_db.Buddy.{Allocator, max_class, free_run_count}
use open_db.Buddy.Snapshot.{top_class, max_observed_class, cap16, serialize_header}

-- The fields at offsets 8 and 10.
abbrev pub read_header : Reader (ℕ × ℕ)
read_header = do top ← read_le 2; runs ← read_le 2; return (top, runs)

-- The greatest class that is not empty, or 0.
pub record IsTop (free : ℕ → List ℕ) (n k : ℕ) : Type 0 where
  pub bound : k ≤ n
  pub above : (j : ℕ) → k < j → j ≤ n → free j ≡ []
  pub used : (k ≡ 0) ⊎ (free k ≢ [])

List-cases : (xs : List ℕ) → (xs ≡ []) ⊎ ((y : ℕ) × (ys : List ℕ) × (xs ≡ y ∷ ys))
List-cases [] = inl refl
List-cases (y ∷ ys) = inr (y, ys, refl)

top_class-IsTop : (n : ℕ) (free : ℕ → List ℕ) → IsTop free n (top_class n free)
unfolding top_class
top_class-IsTop zero free = record {
  bound = omega arith;
  above = λ j l h. absurd (omega arith);
  used = inl refl;
}
top_class-IsTop (suc n) free = elim (List-cases (free (suc n))) [
  | inl e ↦
      let rest = top_class-IsTop n free in
      rw (e, top_class)
        (record {
          bound = omega (arith, rest.bound);
          above = λ j l h. elim (Bool-cases (j == suc n)) [
            | inl same ↦ rw ((==_iff j (suc n)).0 same) e
            | inr other ↦ rest.above j l (ground arith)
          ];
          used = rest.used;
        })
  | inr (x, xs, e) ↦
      rw (e, top_class)
        (record {
          bound = omega arith;
          above = λ j l h. absurd (omega arith);
          used = inr (λ f. cc);
        })
]

cap16-le : (n : ℕ) → cap16 n < words 2
cap16-le n = ground arith

two_fields :
    (m n : ℕ) (rest : List ℕ)
    → m < words 2
    → n < words 2
    → read_header (le_bytes 2 m ++ (le_bytes 2 n ++ rest)) ≡ ok (m, n) rest
two_fields m n rest h g =
    rw (read_le-le_bytes 2 m (le_bytes 2 n ++ rest) h, read_le-le_bytes 2 n rest g)

max_observed_class-IsTop : (a : Allocator) → IsTop a.free_buddy 8 (max_observed_class a)
unfolding max_observed_class
max_observed_class-IsTop a = top_class-IsTop max_class a.free_buddy

-- The header is 16 bytes, and its two fields are the greatest class that has a free run, 0 if
-- there is none above class 0, and the number of free runs, 65535 if there are more.
pub serialize_header_lem :
    (a : Allocator)
    → (length (serialize_header a) ≡ 16)
      × (read_header (drop 8 (serialize_header a))
          ≡ ok (max_observed_class a, cap16 (free_run_count a)) (0 ∷ 0 ∷ 0 ∷ 0 ∷ []))
      × IsTop a.free_buddy 8 (max_observed_class a)
unfolding serialize_header le_bytes
serialize_header_lem a = (
  refl,
  two_fields (max_observed_class a) (cap16 (free_run_count a)) (0 ∷ 0 ∷ 0 ∷ 0 ∷ [])
      (omega (arith, (max_observed_class-IsTop a).bound)) (cap16-le (free_run_count a)),
  max_observed_class-IsTop a,
)
