-- ===== src/Tests/Memory.antt =====
-- A bucket in memory, which never fails: the writes, the latest first.
use mathlib.Core.List.{Memᴰ}
use mathlib.Core.List.Memᴰ
use env_forge.Prelude.{
  ◌≡◌, refl, sym, ap, ◌∙◌, if◌then◌else◌, true, false, Bool-cases, inl, inr, List, [], ◌∷◌, Option,
  none, some, Text, text_eq, text_eq_iff,
}
use env_forge.Environment.Json.{Json}
use env_forge.Environment.Store.{Bucket, IsBucket}
use env_forge.Go.{Result, ok}

abbrev pub Memory : Type 0
Memory = List (Text × Json)

abbrev pub lookup : Memory → Text → Option Json
lookup [] k = none
lookup ((j, v) ∷ m) k = if text_eq j k then some v else lookup m k

abbrev pub remove : Text → Memory → Memory
remove k [] = []
remove k ((j, v) ∷ m) = if text_eq k j then remove k m else (j, v) ∷ remove k m

-- each key once, with its latest value
abbrev pub visit : Memory → Memory
visit [] = []
visit ((j, v) ∷ m) = (j, v) ∷ remove j (visit m)

lookup-remove :
    (k : Text) (m : Memory) (j : Text)
    → lookup (remove k m) j ≡ (if text_eq k j then none else lookup m j)
lookup-remove k [] j = elim (Bool-cases (text_eq k j)) [
  | inl same ↦ rw same
  | inr differ ↦ rw differ
]
lookup-remove k ((i, v) ∷ m) j = elim (Bool-cases (text_eq k i)) [
  | inl same ↦
      let k_is_i : k ≡ i = (text_eq_iff k i).0 same in
      elim (Bool-cases (text_eq k j)) [
        | inl found ↦ rw (same, found) (lookup-remove k m j ∙ (rw found))
        | inr other ↦ rw (same, other, ← k_is_i, other) (lookup-remove k m j ∙ (rw other))
      ]
  | inr differ ↦ elim (Bool-cases (text_eq i j)) [
    | inl found ↦
        let i_is_j : i ≡ j = (text_eq_iff i j).0 found in rw (differ, found, ← i_is_j, differ)
    | inr other ↦ rw (differ, other) (lookup-remove k m j)
  ]
]

lookup-visit : (m : Memory) (k : Text) → lookup (visit m) k ≡ lookup m k
lookup-visit [] k = refl
lookup-visit ((j, v) ∷ m) k = elim (Bool-cases (text_eq j k)) [
  | inl same ↦ rw same
  | inr differ ↦ rw (differ, lookup-remove j (visit m) k, differ) (lookup-visit m k)
]

lookup-Mem : (m : Memory) (k : Text) (v : Json) → lookup m k ≡ some v → Memᴰ (k, v) m
lookup-Mem [] k v h = cc
lookup-Mem ((j, u) ∷ m) k v h = elim (Bool-cases (text_eq j k)) [
  | inl same ↦ Memᴰ.head (cc ((text_eq_iff j k).0 same, rw same at h))
  | inr differ ↦ Memᴰ.tail (lookup-Mem m k v (rw differ at h))
]

-- what is left after a removal was there, under another key
Mem-remove :
    (k : Text) (m : Memory) (j : Text) (v : Json)
    → Memᴰ (j, v) (remove k m)
    → Memᴰ (j, v) m × (text_eq k j ≡ false)
Mem-remove k [] j v m' = absurd (Memᴰ.not-nil m')
Mem-remove k ((i, u) ∷ m) j v m' = elim (Bool-cases (text_eq k i)) [
  | inl same ↦ let (n, q) = Mem-remove k m j v (rw same at m') in (Memᴰ.tail n, q)
  | inr differ ↦ elim (Memᴰ.cases_cons (rw differ at m')) [
    | inl here ↦ (Memᴰ.head here, ap (text_eq k) (ap (λ e. e.0) here) ∙ differ)
    | inr later ↦ let (n, q) = Mem-remove k m j v later in (Memᴰ.tail n, q)
  ]
]

visit-lookup : (m : Memory) (k : Text) (v : Json) → Memᴰ (k, v) (visit m) → lookup m k ≡ some v
visit-lookup [] k v m' = absurd (Memᴰ.not-nil m')
visit-lookup ((j, u) ∷ m) k v m' = elim (Memᴰ.cases_cons m') [
  | inl here ↦
      let j_is_k : text_eq j k ≡ true = (text_eq_iff j k).1 (sym (ap (λ e. e.0) here)) in
      rw j_is_k (ap some (sym (ap (λ e. e.1) here)))
  | inr later ↦
      let (n, differ) = Mem-remove j (visit m) k v later in rw differ (visit-lookup m k v n)
]

unfoldable pub memory : Bucket Memory
memory = record {
  get = lookup;
  put = λ m k v. ok ((k, v) ∷ m);
  delete = λ m k. ok (remove k m);
  entries = visit;
}

ok-injective : (m n : Memory) → ◌≡◌ {A = Result Memory} (ok m) (ok n) → n ≡ m
ok-injective m n h = cc

pub memory-IsBucket : IsBucket memory
unfolding memory
memory-IsBucket = record {
  get-put = λ m n k j v h. rw (ok-injective _ n h) refl;
  get-delete = λ m n k j h. rw (ok-injective _ n h) (lookup-remove k m j);
  listed = λ m k v h. lookup-Mem (visit m) k v (lookup-visit m k ∙ h);
  stored = visit-lookup;
}
