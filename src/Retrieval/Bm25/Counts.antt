-- ===== src/Retrieval/Bm25/Counts.antt =====
-- The frequencies that the index holds (internal/retrieval/bm25/bm25.go, AddDocument).
use repolens.Base.{
  ℕ, ◌<◌, ◌≤◌, ◌≡◌, refl, sym, subst, false, List, [], ◌∷◌, ◌++◌, arith, nat_eq, length,
  length-append, All, All-append, All-map, Bool-cases, inl, inr,
}
use repolens.Base.Text.{same_codes, same_codes-eq}
use repolens.Retrieval.Tokenizer.{has_token, tokenize}
use repolens.Retrieval.Tokenizer.Distinct.{AreTokens, tokenize-AreTokens}
use repolens.Retrieval.Bm25.{
  Document, Posting, Index, new_index, document_text, term_count, add_document, add_documents,
}

absent_count : (t : List ℕ) (ts : List (List ℕ)) → has_token t ts ≡ false → term_count t ts ≡ 0
unfolding term_count has_token
absent_count t [] h = refl
absent_count t (u ∷ us) h = ground (arith, absent_count t us)

-- Among distinct tokens a term counts at most once.
count_at_most_once : (t : List ℕ) (ts : List (List ℕ)) → AreTokens ts → term_count t ts ≤ 1
unfolding term_count
count_at_most_once t [] a = omega arith
count_at_most_once t (u ∷ us) a = elim (Bool-cases (same_codes t u)) [
  | inl hit ↦
      let absent : term_count t us ≡ 0 =
        subst (λ (v : List ℕ). term_count v us ≡ 0) (sym (same_codes-eq t u hit))
          (absent_count u us a.0) in
      rw (hit, absent) (omega arith)
  | inr miss ↦ rw miss (count_at_most_once t us a.2)
]

-- What holds of the entries of one term, in an index of `n` documents.
record IsCounted (n : ℕ) (postings : List Posting) (df : ℕ) : Type 0 where
  known : All (λ (p : Posting). p.doc_id < n) postings
  once : All (λ (p : Posting). p.term_freq ≡ 1) postings
  total : df ≡ length postings

-- One more document makes room for one more id.
known_later :
    (d : Document) (ds : List Document) (postings : List Posting)
    → All (λ (p : Posting). p.doc_id < length ds) postings
    → All (λ (p : Posting). p.doc_id < length (ds ++ d ∷ [])) postings
known_later d ds postings h =
    let more = length-append ds (d ∷ []) in
    All-map (λ (p : Posting). p.doc_id < length ds)
      (λ (p : Posting). p.doc_id < length (ds ++ d ∷ [])) (λ p k. omega (arith, more)) postings h

add_document-IsCounted :
    (t : List ℕ) (doc : Document) (x : Index)
    → IsCounted (length x.documents) (x.inverted_index t) (x.doc_freq t)
    → IsCounted
        (length (add_document doc x).documents)
        ((add_document doc x).inverted_index t)
        ((add_document doc x).doc_freq t)
unfolding add_document
add_document-IsCounted t doc x h =
    let tokens = tokenize (document_text doc) in
    let n = length x.documents in
    let d : Document = record doc { id = n; doc_length = length tokens } in
    let most = count_at_most_once t tokens (tokenize-AreTokens (document_text doc)) in
    let more = length-append x.documents (d ∷ []) in
    elim (Bool-cases (nat_eq (term_count t tokens) 0)) [
      | inl absent ↦ rw absent (record {
        known = known_later d x.documents (x.inverted_index t) h.known;
        once = h.once;
        total = h.total;
      })
      | inr present ↦
          let single : term_count t tokens ≡ 1 = ground arith in
          rw present (record {
            known =
                All-append (λ (p : Posting). p.doc_id < length (x.documents ++ d ∷ []))
                  (x.inverted_index t) _ (known_later d x.documents (x.inverted_index t) h.known)
                  (omega (arith, more), tt);
            once =
                All-append (λ (p : Posting). p.term_freq ≡ 1) (x.inverted_index t) _ h.once
                  (single, tt);
            total = omega (
              arith,
              h.total,
              length-append (x.inverted_index t)
                  (record { doc_id = n; term_freq = term_count t tokens } ∷ []),
            );
          })
    ]

add_documents-IsCounted :
    (t : List ℕ) (ds : List Document) (x : Index)
    → IsCounted (length x.documents) (x.inverted_index t) (x.doc_freq t)
    → IsCounted
        (length (add_documents ds x).documents)
        ((add_documents ds x).inverted_index t)
        ((add_documents ds x).doc_freq t)
unfolding add_documents
add_documents-IsCounted t [] x h = h
add_documents-IsCounted t (d ∷ ds) x h =
    add_documents-IsCounted t ds (add_document d x) (add_document-IsCounted t d x h)

-- In an index of any documents, for every term: each posting names a document of the index, its term
-- frequency is 1 however often the document has the term, and the document frequency is the number of
-- postings.
pub add_documents-counts :
    (ds : List Document) (t : List ℕ)
    → All
        (λ (p : Posting). p.doc_id < length (add_documents ds new_index).documents)
        ((add_documents ds new_index).inverted_index t)
      × All (λ (p : Posting). p.term_freq ≡ 1) ((add_documents ds new_index).inverted_index t)
      × ((add_documents ds new_index).doc_freq t
          ≡ length ((add_documents ds new_index).inverted_index t))
add_documents-counts ds t =
    let c =
      add_documents-IsCounted t ds new_index (record { known = tt; once = tt; total = refl }) in
    (c.known, c.once, c.total)
