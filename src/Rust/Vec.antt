-- ===== src/Rust/Vec.antt =====
-- `Vec` and ranges: an index out of bounds panics.
use osmgraphing.Prelude.{
  ℕ, zero, suc, ◌+◌, ◌-◌, ◌<◌, ◌≤◌, ◌≡◌, refl, sym, ap, ◌∙◌, ◌↔◌, inl, inr, some, List, [], ◌∷◌,
  length, get_elem?, set, get_elem?_total, arith, In, if◌then◌else◌, ltb, All,
}
use osmgraphing.Rust.Outcome.{Outcome, ok, panic, expect, collect, collect-cons}

-- `xs[i]`
abbrev pub index {ℓ} : {A : Type ℓ} → List A → ℕ → Outcome A
index xs i = expect (get_elem? xs i)

-- `xs[i] = v`
abbrev pub store {ℓ} : {A : Type ℓ} → List A → ℕ → A → Outcome (List A)
store xs i v = if ltb i (length xs) then ok (set xs i v) else panic

pub some_inj {ℓ} : {A : Type ℓ} {a b : A} → some a ≡ some b → a ≡ b
some_inj h = cc

-- `n` consecutive numbers from `lo`.
abbrev pub count_from : ℕ → ℕ → List ℕ
count_from lo zero = []
count_from lo (suc n) = lo ∷ count_from (lo + 1) n

-- `lo..hi`
abbrev pub range : ℕ → ℕ → List ℕ
range lo hi = count_from lo (hi - lo)

pub length-count_from : (lo n : ℕ) → length (count_from lo n) ≡ n
length-count_from lo zero = refl
length-count_from lo (suc n) = ap suc (length-count_from (lo + 1) n)

pub In-count_from : (lo n e : ℕ) → In e (count_from lo n) ↔ ((lo ≤ e) × (e < lo + n))
In-count_from lo zero e = (λ h. absurd h, λ h. absurd (omega (arith, h.0, h.1)))
In-count_from lo (suc n) e = ground (arith, In-count_from (lo + 1) n e)

pub In-range : (lo hi e : ℕ) → lo ≤ hi → In e (range lo hi) ↔ ((lo ≤ e) × (e < hi))
In-range lo hi e h = ground (arith, In-count_from lo (hi - lo) e)

pub index-eq-ok {ℓ} :
    {A : Type ℓ} (xs : List A) (i : ℕ) (v : A) → (index xs i ≡ ok v) ↔ (get_elem? xs i ≡ some v)
index-eq-ok xs i v = ground arith

-- Reading a list of valid positions never panics.
pub collect-index_total :
    {A : Type 0} (xs : List A) (is : List ℕ)
    → All (λ i. i < length xs) is
    → (ys : List A) × (collect (index xs) is ≡ ok ys)
collect-index_total xs [] h = ([], refl)
collect-index_total xs (i ∷ is) h =
    let (v, e) = get_elem?_total xs i h.0 in
    let (ys, r) = collect-index_total xs is h.1 in (v ∷ ys, rw (e, r))

-- What is read is what stands at one of the positions.
pub In-collect-index :
    {A : Type 0} (xs : List A) (is : List ℕ) (ys : List A) (a : A)
    → collect (index xs) is ≡ ok ys
    → In a ys ↔ ((i : ℕ) × In i is × (get_elem? xs i ≡ some a))
In-collect-index xs [] ys a h = let e : ys ≡ [] = cc in rw e (λ m. absurd m, λ m. absurd m.1)
In-collect-index xs (i ∷ is) ys a h =
    let (y, rest, e, e', shape) = collect-cons (index xs) i is ys h in
    let ih = In-collect-index xs is rest a e' in
    let at_i = (index-eq-ok xs i y).0 e in
    rw shape (
      λ m. elim m [
        | inl p ↦ (i, inl refl, rw p at_i)
        | inr p ↦ let (j, q, r) = ih.0 p in (j, inr q, r)
      ],
      λ m. elim m.1 [
        | inl p ↦ inl (some_inj (sym m.2 ∙ ap (get_elem? xs) p ∙ at_i))
        | inr p ↦ inr (ih.1 (m.0, p, m.2))
      ],
    )
