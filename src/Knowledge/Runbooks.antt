-- ===== src/Knowledge/Runbooks.antt =====
-- `ingest_runbook` of src/aegis_services/knowledge_ingestor/service.py.
use aegis_project.Prelude.{◌≡◌, ap, String, none, some, List, arith}
use aegis_project.Chunking.{Chunk, chunk_markdown}
use aegis_project.Chunking.Numbering.{NumberedResult, Numbered, chunk_markdown-Numbered}
use aegis_project.Texts.{chars}
use aegis_project.Knowledge.{Services, store_chunks, ingest_runbook}

-- Every runbook is ingested: the chunker ends on its text with chunks of at most 800 characters,
-- numbered from 0, and exactly these are embedded, stored and counted.
pub ingest_runbook_ends :
    (services : Services) (source service system text : String) (tags : List String)
    (stored : services.client.Stored)
    → (chunks : List Chunk) × (chunk_markdown services.lexer 800 100 (chars text) ≡ some chunks)
      × (ingest_runbook services source service system text tags stored
          ≡ some (store_chunks services source service system tags chunks stored))
      × Numbered 800 0 chunks
unfolding ingest_runbook NumberedResult
ingest_runbook_ends services source service system text tags stored =
    let (chunks, e, numbered) =
      chunk_markdown-Numbered services.lexer 800 100 (chars text) (omega arith) in
    (
      chunks,
      e,
      ap
          (λ r. elim r [
            | none ↦ none
            | some cs ↦ some (store_chunks services source service system tags cs stored)
          ])
          e,
      numbered,
    )
