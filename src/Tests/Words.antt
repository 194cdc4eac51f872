-- ===== src/Tests/Words.antt =====
-- The tokenizer on small texts.
use repolens.Base.{◌<◌, ◌≡◌, refl, [], ◌∷◌, All, length}
use repolens.Base.Text.{codes}
use repolens.Retrieval.Bm25.{Document, Posting, new_index, add_documents}
use repolens.Retrieval.Bm25.Counts.{add_documents-counts}
use repolens.Retrieval.Tokenizer.{split_camel_case, tokenize}
use repolens.Retrieval.Tokenizer.Camel.{concat, split_camel_case_lem}
use repolens.Retrieval.Tokenizer.Distinct.{AreTokens, tokenize-AreTokens}

http_server :
    split_camel_case (codes "HTTPServer2Go") ≡ codes "HTTP" ∷ codes "Server2" ∷ codes "Go" ∷ []
unfolding split_camel_case
http_server = refl

two_words :
    tokenize (codes "a.B a") ≡ codes "a.B" ∷ codes "a.b" ∷ codes "a" ∷ codes "B" ∷ codes "b" ∷ []
unfolding tokenize
two_words = refl

split_camel_case_lem_example :
    (concat (split_camel_case (codes "HTTPServer")) ≡ codes "HTTPServer")
    × All (λ p. 0 < length p) (split_camel_case (codes "HTTPServer"))
split_camel_case_lem_example = split_camel_case_lem (codes "HTTPServer")

tokenize-AreTokens_example : AreTokens (tokenize (codes "fooBar foo"))
tokenize-AreTokens_example = tokenize-AreTokens (codes "fooBar foo")

abbrev twice : Document
twice = record {
  id = 0;
  file_path = codes "a.go";
  content = codes "foo foo foo";
  symbol_name = [];
  doc_length = 0;
}

add_documents-counts_example :
    All
      (λ (p : Posting). p.doc_id < length (add_documents (twice ∷ []) new_index).documents)
      ((add_documents (twice ∷ []) new_index).inverted_index (codes "foo"))
    × All
        (λ (p : Posting). p.term_freq ≡ 1)
        ((add_documents (twice ∷ []) new_index).inverted_index (codes "foo"))
    × ((add_documents (twice ∷ []) new_index).doc_freq (codes "foo")
        ≡ length ((add_documents (twice ∷ []) new_index).inverted_index (codes "foo")))
add_documents-counts_example = add_documents-counts (twice ∷ []) (codes "foo")
