-- ===== src/Tasks/Examples.antt =====
-- background_tasks.py: a delivery that succeeds at the third attempt, and a document of five words.
use ai_chat_bot_v.Base.{
  ℕ, ◌≡◌, ◌≢◌, ◌≤◌, refl, All, not, filter, true, false, none, some, List, [], ◌∷◌, ltb, length,
  arith, if◌then◌else◌,
}
use ai_chat_bot_v.Base.Text.{Text, codes, strip, is_space, same_text}
use ai_chat_bot_v.Tasks.{Retried, again, reraised, IsCelery}
use ai_chat_bot_v.Tasks.Delivery.{Sender, responded, delivered, Ends, all_runs, sum, all_runs-Ends}
use ai_chat_bot_v.Tasks.Documents.{
  Files, processed, split_from, chunk_words, process_document_upload,
}
use ai_chat_bot_v.Tasks.Documents.Chunks.{
  own_words, letters, windows, process_document_upload-processed,
}

abbrev sender : Sender
sender = record {
  Body = Text;
  event = λ p. p;
  dumps = λ p. p;
  hmac_sha256 = λ secret body. secret;
  post = λ url p headers retries.
      if ltb retries 2 then responded 503 (codes "busy") else responded 204 [];
}

abbrev celery_retry : ℕ → Retried
celery_retry n = if ltb n 5 then again else reraised

celery_retry-IsCelery : IsCelery 5 celery_retry
celery_retry-IsCelery = record { runs_again = λ n h. ground arith; gives_up = refl }

all_runs-Ends_example :
    Ends sender celery_retry
      (codes "https://example.com")
      (codes "ping")
      []
      []
      5
      0
      (all_runs sender celery_retry (codes "https://example.com") (codes "ping") [] [] 5 0).1
    × (sum (all_runs sender celery_retry (codes "https://example.com") (codes "ping") [] [] 5 0).0
        ≤ 930)
all_runs-Ends_example =
    all_runs-Ends sender celery_retry (codes "https://example.com") (codes "ping") [] []
      celery_retry-IsCelery

-- After waits of 30 and 60 seconds.
delivered_third :
    all_runs sender celery_retry (codes "https://example.com") (codes "ping") [] [] 5 0
    ≡ (30 ∷ 60 ∷ [], delivered 204)
unfolding all_runs
delivered_third = refl

abbrev document : Text
document = codes "one two  three four five"

abbrev files : Files
files = record {
  File = Text;
  exists = λ f. true;
  read = λ f. some f;
  read_pdf = λ f. none;
  has_pypdf = false;
  lower = λ t. t;
}

process_document_upload-processed_example :
    (chunks : List (List Text)) × (chunk_words 6 3 2 (split_from [] document) ≡ some chunks)
    × (process_document_upload files 3 1 6 document (codes "/tmp/a.txt") (codes "a.txt")
        ≡ some (processed (length chunks) 24))
    × (chunks ≡ windows 3 2 (length chunks) 0 (split_from [] document))
    × All (λ c. c ≢ []) chunks
    × (own_words 2 chunks ≡ split_from [] document)
    × (letters (split_from [] document) ≡ filter (λ c. not (is_space c)) document)
unfolding strip is_space split_from same_text
process_document_upload-processed_example =
    process_document_upload-processed files 3 1 6 document (codes "/tmp/a.txt") (codes "a.txt")
      document (omega arith) refl refl refl refl (omega arith)

three_chunks :
    process_document_upload files 3 1 6 document (codes "/tmp/a.txt") (codes "a.txt")
    ≡ some (processed 3 24)
unfolding process_document_upload is_space
three_chunks = refl
