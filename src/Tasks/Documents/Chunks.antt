-- ===== src/Tasks/Documents/Chunks.antt =====
-- background_tasks.py, `process_document_upload`: which words the chunks of a document hold.
use mathlib.Core.List.{append_assoc}
use native.Mathlib.Nat.{zero-add, add-zero, suc-add}
use ai_chat_bot_v.Base.{
  ℕ, zero, suc, ◌+◌, ◌-◌, ◌≤◌, ◌<◌, ◌≡◌, ◌≢◌, refl, sym, ap, ◌∙◌, ◌>>=◌, true, false, some, List,
  [], ◌∷◌, ◌++◌, map, length, take, drop, take-append-drop, Bool-cases, inl, inr, not, filter,
  if◌then◌else◌, Bool, length-drop, arith, All,
}
use ai_chat_bot_v.Base.Text.{Text, codes, strip, is_empty, is_space}
use ai_chat_bot_v.Compressor.{join}
use ai_chat_bot_v.Tasks.Documents.{
  reversed, split_from, chunk_words, Files, processed, text_content, lacks_pypdf, chunks_of,
  process_document_upload,
}

-- The words that a chunk does not share with the next.
abbrev pub own_words : (step : ℕ) → List (List Text) → List Text
own_words step [] = []
own_words step (chunk ∷ chunks) = take step chunk ++ own_words step chunks

-- `n` chunks of `chunk_size` words, or of as many as are left, the first of them from the word `start`
-- on and each `step` words after the one before.
pub windows : (chunk_size step n start : ℕ) → (words : List Text) → List (List Text)
windows chunk_size step zero start words = []
windows chunk_size step (suc n) start words =
    take chunk_size (drop start words) ∷ windows chunk_size step n (start + step) words

take-take : (m n : ℕ) (ws : List Text) → m ≤ n → take m (take n ws) ≡ take m ws
take-take zero n ws h = refl
take-take (suc m) zero ws h = absurd (omega arith)
take-take (suc m) (suc n) [] h = refl
take-take (suc m) (suc n) (w ∷ ws) h = ap (λ r. w ∷ r) (take-take m n ws (omega arith))

drop-drop : (m n : ℕ) (ws : List Text) → drop (n + m) ws ≡ drop m (drop n ws)
drop-drop m zero ws = rw zero-add
drop-drop zero (suc n) [] = rw add-zero
drop-drop (suc m) (suc n) [] = rw suc-add
drop-drop m (suc n) (w ∷ ws) = rw (suc-add, drop-drop m n ws)

take-ne-nil : (n : ℕ) (w : Text) (ws : List Text) → 0 < n → take n (w ∷ ws) ≢ []
take-ne-nil zero w ws h = absurd (omega arith)
take-ne-nil (suc n) w ws h = λ e. cc

module _ (chunk_size step : ℕ) (positive : 0 < step) (fits : step ≤ chunk_size) where
  -- What the loop makes of the words from `start` on, where there is a round for each and one more:
  -- chunks that are windows of the words, none of them empty, and without what they share these words.
  chunk_words-windows :
      (fuel start : ℕ) (words ws : List Text)
      → drop start words ≡ ws
      → length ws < fuel
      → (chunks : List (List Text)) × (chunk_words fuel chunk_size step ws ≡ some chunks)
        × (chunks ≡ windows chunk_size step (length chunks) start words)
        × All (λ c. c ≢ []) chunks
        × (own_words step chunks ≡ ws)
  unfolding chunk_words windows
  chunk_words-windows zero start words ws at h = elim h [ ]
  chunk_words-windows (suc fuel) start words [] at h = ([], refl, refl, tt, refl)
  chunk_words-windows (suc fuel) start words (w ∷ ws) at h =
      let next : drop (start + step) words ≡ drop step (w ∷ ws) =
        drop-drop step start words ∙ ap (drop step) at in
      let (chunks, e, cut, filled, own) =
        chunk_words-windows fuel (start + step) words (drop step (w ∷ ws)) next
          (omega (arith, length-drop step (w ∷ ws))) in
      (
        take chunk_size (w ∷ ws) ∷ chunks,
        rw e refl,
        ap (λ r. take chunk_size r ∷ chunks) (sym at)
            ∙ ap (λ r. take chunk_size (drop start words) ∷ r) cut,
        (take-ne-nil chunk_size w ws (omega arith), filled),
        rw (take-take step chunk_size (w ∷ ws) fits, own) (take-append-drop step (w ∷ ws)),
      )

-- The characters of a list of words, one word after the other.
abbrev pub letters : List Text → Text
letters [] = []
letters (w ∷ ws) = w ++ letters ws

reversed-append : (s t : Text) → reversed s t ≡ reversed s [] ++ t
reversed-append [] t = refl
reversed-append (c ∷ s) t = rw (reversed-append s (c ∷ t), reversed-append s (c ∷ []), append_assoc)

-- No character of a text is lost by `split` but those that are space.
letters-split_from :
    (word t : Text)
    → letters (split_from word t) ≡ reversed word [] ++ filter (λ c. not (is_space c)) t
unfolding split_from
letters-split_from [] [] = refl
letters-split_from (c ∷ word) [] = refl
letters-split_from [] (c ∷ t) = elim (Bool-cases (is_space c)) [
  | inl gap ↦
      ap (λ b. letters (split_from (if b then [] else c ∷ []) t)) gap
      ∙ rw gap (letters-split_from [] t)
  | inr letter ↦
      ap (λ b. letters (split_from (if b then [] else c ∷ []) t)) letter
      ∙ rw letter (letters-split_from (c ∷ []) t)
]
letters-split_from (d ∷ word) (c ∷ t) =
    let split = λ (b : Bool). letters (elim b [
      | true ↦ reversed (d ∷ word) [] ∷ split_from [] t
      | false ↦ split_from (c ∷ d ∷ word) t
    ]) in
    elim (Bool-cases (is_space c)) [
      | inl gap ↦ ap split gap ∙ rw (gap, letters-split_from [] t)
      | inr letter ↦
          ap split letter
          ∙ rw (letter, letters-split_from (c ∷ d ∷ word) t)
              (ap (λ r. r ++ filter (λ x. not (is_space x)) t) (reversed-append (d ∷ word) (c ∷ []))
                ∙ append_assoc (reversed (d ∷ word) []) (c ∷ []) _)
    ]

length-map : (f : List Text → Text) (xs : List (List Text)) → length (map f xs) ≡ length xs
length-map f [] = refl
length-map f (x ∷ xs) = ap suc (length-map f xs)

chunks_of-eq :
    (chunk_size overlap fuel : ℕ) (content : Text) {chunks : List (List Text)}
    → chunk_words fuel chunk_size (chunk_size - overlap) (split_from [] content) ≡ some chunks
    → chunks_of chunk_size overlap fuel content ≡ some (map (join (codes " ")) chunks)
unfolding chunks_of
chunks_of-eq chunk_size overlap fuel content e =
    ap (λ o. o >>= λ chunks. some (map (join (codes " ")) chunks)) e

-- Where the overlap is less than a chunk, a file that is there and can be read as a text of more than
-- space, and needs no reader that is missing, is processed: with a round for each word and one more the
-- loop ends, and the number of its chunks and of the characters is reported. The chunks are windows of
-- the document's words, the first from its start and each of `chunk_size` words, or of as many as are
-- left, `chunk_size - overlap` words after the one before; none is empty, and the words that each does
-- not share with the next are the words of the document, each once and in their order. The words hold
-- every character of the document that is not space, in their order.
pub process_document_upload-processed :
    (files : Files) (chunk_size overlap fuel : ℕ) (file : files.File) (path name content : Text)
    → overlap < chunk_size
    → files.exists file ≡ true
    → lacks_pypdf files name ≡ false
    → text_content files file name ≡ some content
    → is_empty (strip content) ≡ false
    → length (split_from [] content) < fuel
    → let words = split_from [] content in
      let step = chunk_size - overlap in
      (chunks : List (List Text)) × (chunk_words fuel chunk_size step words ≡ some chunks)
      × (process_document_upload files chunk_size overlap fuel file path name
          ≡ some (processed (length chunks) (length content)))
      × (chunks ≡ windows chunk_size step (length chunks) 0 words)
      × All (λ c. c ≢ []) chunks
      × (own_words step chunks ≡ words)
      × (letters words ≡ filter (λ c. not (is_space c)) content)
unfolding process_document_upload
process_document_upload-processed files chunk_size overlap fuel file path name content lt there
      lacks readable filled enough =
    let words = split_from [] content in
    let step = chunk_size - overlap in
    let (chunks, e, cut, some_words, own) =
      chunk_words-windows chunk_size step (omega arith) (omega arith) fuel 0 words words refl
        enough in
    (
      chunks,
      e,
      rw (there, lacks, readable, filled, chunks_of-eq chunk_size overlap fuel content e)
          (ap (λ n. some (processed n (length content))) (length-map (join (codes " ")) chunks)),
      cut,
      some_words,
      own,
      letters-split_from [] content,
    )
