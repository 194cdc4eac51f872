-- ===== src/Retrieval/Bm25.antt =====
-- internal/retrieval/bm25/bm25.go: what AddDocument counts. The maps are functions with the zero
-- value for a missing key; the scores of Search are floating point and are left out.
pub mod Counts
use repolens.Base.{ℕ, suc, ◌+◌, Bool, List, [], ◌∷◌, ◌++◌, nat_eq, length, if◌then◌else◌}
use repolens.Base.Text.{same_codes}
use repolens.Retrieval.Tokenizer.{tokenize}

pub record Document : Type 0 where
  pub id : ℕ
  pub file_path : List ℕ
  pub content : List ℕ
  pub symbol_name : List ℕ
  pub doc_length : ℕ

pub record Posting : Type 0 where
  pub doc_id : ℕ
  pub term_freq : ℕ

pub record Index : Type 0 where
  pub documents : List Document
  pub inverted_index : List ℕ → List Posting
  pub doc_freq : List ℕ → ℕ

abbrev pub new_index : Index
new_index = record { documents = []; inverted_index = λ t. []; doc_freq = λ t. 0 }

-- The text that is tokenized, its parts joined by a space.
abbrev pub document_text : Document → List ℕ
document_text doc = doc.content ++ 32 ∷ doc.symbol_name ++ 32 ∷ doc.file_path

-- The count of the map `tf` for a term.
unfoldable pub term_count : List ℕ → List (List ℕ) → ℕ
term_count t [] = 0
term_count t (u ∷ us) = if same_codes t u then suc (term_count t us) else term_count t us

-- Each key of `tf` touches its own entries only, in whatever order the map is walked.
unfoldable pub add_document : Document → Index → Index
unfolding term_count
add_document doc x =
    let tokens = tokenize (document_text doc) in
    let n = length x.documents in
    record {
      documents = x.documents ++ record doc { id = n; doc_length = length tokens } ∷ [];
      inverted_index = λ t.
          if nat_eq (term_count t tokens) 0
          then x.inverted_index t
          else x.inverted_index t ++ record { doc_id = n; term_freq = term_count t tokens } ∷ [];
      doc_freq = λ t. if nat_eq (term_count t tokens) 0 then x.doc_freq t else suc (x.doc_freq t);
    }

unfoldable pub add_documents : List Document → Index → Index
unfolding add_document
add_documents [] x = x
add_documents (d ∷ ds) x = add_documents ds (add_document d x)
