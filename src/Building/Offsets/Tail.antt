-- ===== src/Building/Offsets/Tail.antt =====
-- What the offset loops push, as a function of the sorted sources, and what stands in it.
use mathlib.Core.List.{append-nil, append_assoc}
use native.Mathlib.Decide.{dec_lt}
use native.Mathlib.Nat.{le_refl}
use osmgraphing.Prelude.{
  ℕ, zero, suc, ◌+◌, ◌-◌, ◌<◌, ◌≤◌, ◌≡◌, refl, ap, ◌∙◌, ◌↔◌, inl, inr, some, List, [], ◌∷◌, ◌++◌,
  length, get_elem?, replicate, arith, All, IsSorted, if◌then◌else◌, ◌==◌, ltb, Bool-cases,
  length-append, length-replicate, get_elem?-append_left, get_elem?-append_right,
  get_elem?-replicate, All-get_elem?,
}
use osmgraphing.Network.Graph.{NodeIdx}
use osmgraphing.Building.Offsets.{advance}

-- From a source not beyond the edge's the inner loop ends, and has pushed one offset per node.
pub advance_total :
    (fuel cur target off : ℕ) (offs : List ℕ)
    → cur ≤ target
    → target - cur < fuel
    → advance fuel cur target off offs ≡ some (target, offs ++ replicate (target - cur) off)
unfolding advance
advance_total zero cur target off offs h k = elim k [ ]
advance_total (suc fuel) cur target off offs h k = elim (Bool-cases (cur == target)) [
  | inl e ↦
      let p : cur ≡ target = ground arith in
      let q : target - cur ≡ 0 = omega arith in rw (e, q, append-nil offs, p)
  | inr e ↦
      let q : target - cur ≡ suc (target - (cur + 1)) = ground arith in
      rw (e, q)
        (advance_total fuel (cur + 1) target off (offs ++ off ∷ []) (ground arith) (omega arith)
          ∙ ap (λ (l : List ℕ). some (target, l)) (append_assoc offs (off ∷ []) _))
]

-- What is pushed from source `cur` with `off` edges behind it.
abbrev pub tail : ℕ → ℕ → List NodeIdx → List ℕ
tail cur off [] = off ∷ []
tail cur off (s ∷ rest) = replicate (s - cur) off ++ tail s (off + 1) rest

-- The greatest source, at the end of a sorted list.
abbrev pub last_or : ℕ → List NodeIdx → ℕ
last_or cur [] = cur
last_or cur (s ∷ rest) = last_or s rest

-- The number of edges whose source is smaller than `k`.
unfoldable pub count_below : ℕ → List NodeIdx → ℕ
count_below k [] = 0
count_below k (s ∷ rest) = if ltb s k then suc (count_below k rest) else count_below k rest

pub le-last_or : (cur : ℕ) (srcs : List NodeIdx) → IsSorted (cur ∷ srcs) → cur ≤ last_or cur srcs
le-last_or cur [] h = omega arith
le-last_or cur (s ∷ rest) h = omega (arith, le-last_or s rest h.1)

pub length-tail :
    (cur off : ℕ) (srcs : List NodeIdx)
    → IsSorted (cur ∷ srcs)
    → length (tail cur off srcs) ≡ last_or cur srcs - cur + 1
length-tail cur off [] h = omega arith
length-tail cur off (s ∷ rest) h = omega (
  arith,
  length-append (replicate (s - cur) off) (tail s (off + 1) rest),
  length-replicate (s - cur) off,
  length-tail s (off + 1) rest h.1,
  le-last_or s rest h.1,
)

-- No edge of a sorted list comes before its first.
count_below-zero :
    (k s : ℕ) (srcs : List NodeIdx) → All (λ y. s ≤ y) srcs → k ≤ s → count_below k srcs ≡ 0
unfolding count_below
count_below-zero k s [] h le = refl
count_below-zero k s (x ∷ rest) h le = ground (arith, count_below-zero k s rest h.1 le)

count_below_nil : (k : ℕ) → count_below k [] ≡ 0
unfolding count_below
count_below_nil k = refl

count_below_above :
    (k s : ℕ) (rest : List NodeIdx) → s < k → count_below k (s ∷ rest) ≡ suc (count_below k rest)
unfolding count_below
count_below_above k s rest h = ground arith

-- Entry `j` of what is pushed belongs to node `cur + 1 + j`, and counts the edges before it.
pub get_elem?-tail :
    (cur off : ℕ) (srcs : List NodeIdx) (j : ℕ)
    → IsSorted (cur ∷ srcs)
    → j < length (tail cur off srcs)
    → get_elem? (tail cur off srcs) j ≡ some (off + count_below (cur + 1 + j) srcs)
get_elem?-tail cur off [] zero h k = ap some (omega (arith, count_below_nil (cur + 1 + 0)))
get_elem?-tail cur off [] (suc j) h k = absurd (omega arith)
get_elem?-tail cur off (s ∷ rest) j h k =
    let pushed = replicate (s - cur) off in
    let size = length-replicate (s - cur) off in
    elim (dec_lt j (s - cur)) [
      | yes before ↦
          let none_below =
            count_below-zero (cur + 1 + j) s (s ∷ rest) (le_refl s, h.1.0) (omega arith) in
          get_elem?-append_left pushed (tail s (off + 1) rest) j (omega (arith, size))
          ∙ get_elem?-replicate (s - cur) off j before
          ∙ ap some (omega (arith, none_below))
      | no after ↦
          let i = j - (s - cur) in
          let at_j : j ≡ length pushed + i = omega (arith, size) in
          let node : cur + 1 + j ≡ s + 1 + i = omega (arith, h.0.0) in
          let ih =
            get_elem?-tail s (off + 1) rest i h.1
              (omega (arith, length-append pushed (tail s (off + 1) rest), size)) in
          ap (get_elem? (pushed ++ tail s (off + 1) rest)) at_j
          ∙ get_elem?-append_right pushed (tail s (off + 1) rest) i
          ∙ ih
          ∙ ap some (
              omega (
                arith,
                ap (λ k. count_below k rest) node,
                count_below_above (cur + 1 + j) s rest (omega arith),
              ))
    ]

-- In a sorted list the edges before position `count_below k` are those with a source below `k`.
pub lt-count_below :
    (k : ℕ) (srcs : List NodeIdx) (e v : ℕ)
    → IsSorted srcs
    → get_elem? srcs e ≡ some v
    → (e < count_below k srcs) ↔ (v < k)
unfolding count_below
lt-count_below k [] e v h p = cc
lt-count_below k (s ∷ rest) zero v h p = ground (arith, count_below-zero k s rest h.0)
lt-count_below k (s ∷ rest) (suc e) v h p = ground (
  arith,
  lt-count_below k rest e v h.1 p,
  count_below-zero k s rest h.0,
  All-get_elem? (λ y. s ≤ y) rest e v h.0 p,
)

pub count_below_mono : (k : ℕ) (srcs : List NodeIdx) → count_below k srcs ≤ count_below (k + 1) srcs
unfolding count_below
count_below_mono k [] = omega arith
count_below_mono k (s ∷ rest) = ground (arith, count_below_mono k rest)

pub count_below-le-length : (k : ℕ) (srcs : List NodeIdx) → count_below k srcs ≤ length srcs
unfolding count_below
count_below-le-length k [] = omega arith
count_below-le-length k (s ∷ rest) = ground (arith, count_below-le-length k rest)

pub count_below-none : (srcs : List NodeIdx) → count_below 0 srcs ≡ 0
unfolding count_below
count_below-none [] = refl
count_below-none (s ∷ rest) = ground (arith, count_below-none rest)
