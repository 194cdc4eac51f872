-- ===== src/Pipeline/Retry/Later.antt =====
-- internal/analysispipeline/store.go, retryPreparationOnce: the later builds of a revision, which a
-- restart of its snapshot resets if they are there.
use repolens.Base.{◌∙◌, ℕ, List, nat_eq, nat_key, text_key, Bool-cases, inl, inr}
use repolens.Sql.Result.{◌>>=◌}
use repolens.Sql.Read.{Ensures, Ensures-then, if_true, if_false, pure_step}
use repolens.Pipeline.Model.{
  CodeIndexBuild, RetrievalBuild, PipelineDb, PipelineTx, update_code_build, update_retrieval_build,
}
use repolens.Pipeline.Builds.{reset_code_build, reset_retrieval_build}
use repolens.Pipeline.Retry.{reset_code_build_of, reset_retrieval_build_of}

module _ {B : Type 0} {Q : B → PipelineDb → Type 0} where
  pub Ensures-reset_code_build_of :
      (id : ℕ) (f : ℕ → PipelineTx B) (db : PipelineDb)
      → ((n : ℕ) (t : List CodeIndexBuild) → Ensures Q (f n) (record db { code_builds = t }))
      → Ensures Q (reset_code_build_of id >>= f) db
  unfolding reset_code_build_of reset_code_build update_code_build
  Ensures-reset_code_build_of id f db k = elim (Bool-cases (nat_eq id 0)) [
    | inl z ↦ Ensures-then _ f db db 0 (if_true _ _ _ db z ∙ pure_step 0 db) (k 0 db.code_builds)
    | inr b ↦ Ensures-then _ f db _ _ (if_false _ _ _ db b) (k _ _)
  ]

  pub Ensures-reset_retrieval_build_of :
      (id : ℕ) (f : ℕ → PipelineTx B) (db : PipelineDb)
      → ((n : ℕ) (t : List RetrievalBuild) → Ensures Q (f n) (record db { retrieval_builds = t }))
      → Ensures Q (reset_retrieval_build_of id >>= f) db
  unfolding reset_retrieval_build_of reset_retrieval_build update_retrieval_build
  Ensures-reset_retrieval_build_of id f db k = elim (Bool-cases (nat_eq id 0)) [
    | inl z ↦
        Ensures-then _ f db db 0 (if_true _ _ _ db z ∙ pure_step 0 db) (k 0 db.retrieval_builds)
    | inr b ↦ Ensures-then _ f db _ _ (if_false _ _ _ db b) (k _ _)
  ]
