-- ===== src/Tasks/Documents.antt =====
-- background_tasks.py, `process_document_upload`: a document is read and cut into chunks of words that
-- overlap. Files, the reader of PDFs and `str.lower` are parameters.
pub mod Chunks
use ai_chat_bot_v.Base.{
  ℕ, zero, suc, ◌-◌, ◌≤◌, ◌<◌, ◌≡◌, refl, ap, ◌>>=◌, Bool, true, false, Option, none, some, List,
  [], ◌∷◌, ◌++◌, map, length, take, drop, ◌==◌, take-append-drop, length-drop, arith, if◌then◌else◌,
}
use ai_chat_bot_v.Base.Text.{Text, codes, is_space, strip, is_empty, same_text}
use ai_chat_bot_v.Compressor.{join}

abbrev pub reversed : Text → Text → Text
reversed [] t = t
reversed (c ∷ s) t = reversed s (c ∷ t)

-- `t.split()`, where `word` is what is read of a word, its last character first.
unfoldable pub split_from : (word : Text) → Text → List Text
split_from [] [] = []
split_from (c ∷ word) [] = reversed (c ∷ word) [] ∷ []
split_from [] (c ∷ t) = split_from (if is_space c then [] else c ∷ []) t
split_from (d ∷ word) (c ∷ t) = elim (is_space c) [
  | true ↦ reversed (d ∷ word) [] ∷ split_from [] t
  | false ↦ split_from (c ∷ d ∷ word) t
]

-- The words from `i` on, in chunks of `chunk_size` words each `step` words after the last; fuel bounds
-- the rounds of the loop, and `none` is a loop that has not ended.
unfoldable pub chunk_words :
    (fuel : ℕ) → (chunk_size step : ℕ) → List Text → Option (List (List Text))
chunk_words zero chunk_size step words = none
chunk_words (suc fuel) chunk_size step [] = some []
chunk_words (suc fuel) chunk_size step (w ∷ words) = do
  chunks ← chunk_words fuel chunk_size step (drop step (w ∷ words))
  some (take chunk_size (w ∷ words) ∷ chunks)

pub record Files : Type 1 where
  pub File : Type 0
  -- `os.path.exists`
  pub exists : File → Bool
  -- the text of a file, or an exception
  pub read : File → Option Text
  -- the texts of the pages of a PDF, joined by line feeds
  pub read_pdf : File → Option Text
  -- whether pypdf is installed
  pub has_pypdf : Bool
  pub lower : Text → Text

pub data Upload : Type 0 where
  processed : (chunk_count content_length : ℕ) → Upload
  upload_error : (error : Text) → Upload
  -- the text of the exception
  upload_exception : Upload

-- `name.rsplit(".", 1)[-1]`: what follows the last full stop, if there is one.
abbrev after_stop : Text → Option Text
after_stop [] = none
after_stop (c ∷ t) = elim (after_stop t) [
  | some e ↦ some e
  | none ↦ if c == b'.' then some t else none
]

module _ (files : Files) where
  abbrev extension : (file_name : Text) → Text
  extension name = elim (after_stop name) [ none ↦ codes "txt" | some e ↦ files.lower e ]

  -- Every file but a PDF is read as text.
  abbrev pub text_content : files.File → (file_name : Text) → Option Text
  text_content file name =
      if same_text (extension name) (codes "pdf") then files.read_pdf file else files.read file

  abbrev pub lacks_pypdf : (file_name : Text) → Bool
  lacks_pypdf name = if files.has_pypdf then false else same_text (extension name) (codes "pdf")

module _ (chunk_size overlap : ℕ) where
  -- The chunks, of which only the number is kept.
  unfoldable pub chunks_of : (fuel : ℕ) → (content : Text) → Option (List Text)
  unfolding split_from chunk_words
  chunks_of fuel content = do
    chunks ← chunk_words fuel chunk_size (chunk_size - overlap) (split_from [] content)
    some (map (join (codes " ")) chunks)

  -- A content that is no more than space is refused. `none` is the loop without an end.
  abbrev process_content : (fuel : ℕ) → Option Text → Option Upload
  process_content fuel none = some upload_exception
  process_content fuel (some content) =
      if is_empty (strip content)
      then some (upload_error (codes "Document appears to be empty"))
      else (chunks_of fuel content >>= λ chunks. some (processed (length chunks) (length content)))

module _ (files : Files) (chunk_size overlap : ℕ) where
  unfoldable pub process_document_upload :
      (fuel : ℕ) → (file : files.File) → (file_path file_name : Text) → Option Upload
  unfolding chunks_of strip same_text
  process_document_upload fuel file path name =
      if files.exists file
      then (if lacks_pypdf files name
          then some (upload_error (codes "pypdf not installed for PDF processing"))
          else process_content chunk_size overlap fuel (text_content files file name))
      else some (upload_error (codes "File not found: " ++ path))
