-- ===== src/Log/Pieces.antt =====
-- The pieces of a text that Python's `splitlines` and `split` give, as task2/matrix_mul/check_answers.py
-- uses them: lines end in a newline, and words are set apart by spaces.
use pc_project_2024_mtr.Prelude.{
  ℕ, ◌≡◌, ◌≢◌, refl, ap, false, List, [], ◌∷◌, ◌++◌, arith, ◌==◌, if◌then◌else◌, ==_iff,
}
use pc_project_2024_mtr.Prelude.Text.{Bytes}

-- A byte before the first piece.
abbrev pub extend : ℕ → List Bytes → List Bytes
extend b [] = (b ∷ []) ∷ []
extend b (piece ∷ pieces) = (b ∷ piece) ∷ pieces

-- `text.splitlines()`
unfoldable pub split_lines : Bytes → List Bytes
split_lines [] = []
split_lines (b ∷ text) =
    let lines = split_lines text in if b == 10 then [] ∷ lines else extend b lines

-- `text.split(separator)`
unfoldable pub split_on : ℕ → Bytes → List Bytes
split_on separator [] = [] ∷ []
split_on separator (b ∷ text) =
    let pieces = split_on separator text in if b == separator then [] ∷ pieces else extend b pieces

abbrev pub add_word : Bytes → List Bytes → List Bytes
add_word [] words = words
add_word (b ∷ piece) words = (b ∷ piece) ∷ words

abbrev pub nonempty : List Bytes → List Bytes
nonempty [] = []
nonempty (piece ∷ pieces) = add_word piece (nonempty pieces)

-- `text.split()`
unfoldable pub split_words : Bytes → List Bytes
unfolding split_on
split_words text = nonempty (split_on b' ' text)

-- A text in which this byte does not occur.
abbrev pub Lacks : ℕ → Bytes → Type 0
Lacks b [] = Unit
Lacks b (c ∷ text) = (c ≢ b) × Lacks b text

pub Lacks-append :
    (b : ℕ) (text more : Bytes) → Lacks b text → Lacks b more → Lacks b (text ++ more)
Lacks-append b [] more h k = k
Lacks-append b (c ∷ text) more (ne, h) k = (ne, Lacks-append b text more h k)

differs : (a b : ℕ) → a ≢ b → (a == b) ≡ false
differs a b ne = ground arith

pub split_lines-line :
    (line rest : Bytes)
    → Lacks 10 line
    → split_lines (line ++ (10 ∷ rest)) ≡ line ∷ split_lines rest
unfolding split_lines
split_lines-line [] rest h = refl
split_lines-line (b ∷ line) rest (ne, h) =
    rw (differs b 10 ne) (ap (extend b) (split_lines-line line rest h))

pub split_on-piece :
    (separator : ℕ) (piece rest : Bytes)
    → Lacks separator piece
    → split_on separator (piece ++ (separator ∷ rest)) ≡ piece ∷ split_on separator rest
unfolding split_on
split_on-piece separator [] rest h = rw ((==_iff separator separator).1 refl)
split_on-piece separator (b ∷ piece) rest (ne, h) =
    rw (differs b separator ne) (ap (extend b) (split_on-piece separator piece rest h))

pub split_on-whole :
    (separator : ℕ) (piece : Bytes) → Lacks separator piece → split_on separator piece ≡ piece ∷ []
unfolding split_on
split_on-whole separator [] h = refl
split_on-whole separator (b ∷ piece) (ne, h) =
    rw (differs b separator ne) (ap (extend b) (split_on-whole separator piece h))

pub split_words-word :
    (word rest : Bytes)
    → word ≢ []
    → Lacks b' ' word
    → split_words (word ++ (b' ' ∷ rest)) ≡ word ∷ split_words rest
unfolding split_words
split_words-word [] rest some_byte h = absurd (some_byte refl)
split_words-word (b ∷ word) rest some_byte h = ap nonempty (split_on-piece b' ' (b ∷ word) rest h)

pub split_words_nil : split_words [] ≡ []
unfolding split_words
split_words_nil = refl

pub split_lines_nil : split_lines [] ≡ []
unfolding split_lines
split_lines_nil = refl
