-- ===== src/Rust/Words.antt =====
-- `str::split_whitespace`, and texts with a space between each two words.
use osmgraphing.Prelude.{
  ◌≡◌, refl, ap, ◌∙◌, false, List, [], ◌∷◌, ◌++◌, All, if◌then◌else◌, ◌≢◌, ◌==◌,
}
use mathlib.Core.List.{append_assoc, append-nil}
use osmgraphing.Network.Street.Text.{Text, is_whitespace}

-- A word that is not empty is the next one.
unfoldable pub flush : Text → List Text → List Text
flush [] words = words
flush (c ∷ word) words = (c ∷ word) ∷ words

-- The rest of the words, behind the characters `word` of the current one.
unfoldable pub split_behind : Text → Text → List Text
unfolding flush is_whitespace
split_behind word [] = flush word []
split_behind word (c ∷ s) =
    let next_word = flush word (split_behind [] s) in
    let same_word = split_behind (word ++ c ∷ []) s in
    if is_whitespace c then next_word else same_word

unfoldable pub split_whitespace : Text → List Text
unfolding split_behind
split_whitespace = split_behind []

abbrev pub join : List Text → Text
join [] = []
join (word ∷ []) = word
join (word ∷ next ∷ words) = word ++ b' ' ∷ join (next ∷ words)

abbrev pub IsWord : Text → Type 0
IsWord word = (word ≢ []) × All (λ c. is_whitespace c ≡ false) word

-- Not empty, and not begun by the sign of a comment.
abbrev pub IsPlain : Text → Type 0
IsPlain [] = ⊥
IsPlain (c ∷ s) = (c == b'#') ≡ false

flush-word : (word : Text) (words : List Text) → word ≢ [] → flush word words ≡ word ∷ words
unfolding flush
flush-word [] words h = absurd (h refl)
flush-word (c ∷ word) words h = refl

split_behind-end :
    (before word : Text)
    → All (λ c. is_whitespace c ≡ false) word
    → split_behind before word ≡ flush (before ++ word) []
unfolding split_behind
split_behind-end before [] h = rw append-nil refl
split_behind-end before (c ∷ word) h = rw (h.0) (
    split_behind-end (before ++ c ∷ []) word h.1
    ∙ ap (λ w. flush w []) (append_assoc before (c ∷ []) word))

split_behind-space :
    (before word s : Text)
    → All (λ c. is_whitespace c ≡ false) word
    → split_behind before (word ++ b' ' ∷ s) ≡ flush (before ++ word) (split_whitespace s)
unfolding split_behind split_whitespace is_whitespace
split_behind-space before [] s h = rw append-nil refl
split_behind-space before (c ∷ word) s h = rw (h.0) (
    split_behind-space (before ++ c ∷ []) word s h.1
    ∙ ap (λ w. flush w (split_whitespace s)) (append_assoc before (c ∷ []) word))

-- Words with a space between each two are read back.
pub split_whitespace-join :
    (words : List Text) → All IsWord words → split_whitespace (join words) ≡ words
unfolding split_whitespace
split_whitespace-join [] h = refl
split_whitespace-join (word ∷ []) h = split_behind-end [] word h.0.1 ∙ flush-word word [] h.0.0
split_whitespace-join (word ∷ next ∷ words) h =
    split_behind-space [] word (join (next ∷ words)) h.0.1
    ∙ flush-word word (split_whitespace (join (next ∷ words))) h.0.0
    ∙ ap (◌∷◌ word) (split_whitespace-join (next ∷ words) h.1)
