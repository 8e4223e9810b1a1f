-- ===== src/Handlers/Query.antt =====
-- internal/httpapi/handlers/query.go: the endpoint of questions. The RAG service is
-- internal/core/rager/rager.go.
use learn_rag.Common.{ℕ, Option, none, some, List, if◌then◌else◌, ltb, length}
use learn_rag.Common.Text.{Text, is_empty}
use learn_rag.Common.Text.Space.{trim_space}
use learn_rag.Errors.{Err, api, err_question_required, err_invalid_request}
use learn_rag.Model.{Vector}
use learn_rag.Database.{Service}
use learn_rag.Rager.{QueryResult, answer}
use learn_rag.Handlers.{Identity, json, Handler, write_error, respond, validated}

abbrev pub max_question_length : ℕ
max_question_length = 1000

-- `QueryRequest`.
pub record QueryRequest : Type 0 where
  pub question : Text
  pub segment : Text

-- The checks of the trimmed question.
unfoldable pub check_question : Text → Option Err
check_question question =
    if is_empty question
    then some (api err_question_required)
    else if ltb max_question_length (length question)
    then some (api err_invalid_request)
    else none

-- `Query`; a `QueryResponse` has the fields of the result.
unfoldable pub query_handler :
    Service (List Text) (List Vector)
    → Service (Text × Text) Text
    → ℕ
    → Identity
    → QueryRequest
    → Handler QueryResult
unfolding check_question answer write_error
query_handler embed_batch llm query_result_k identity req =
    let question = trim_space req.question in
    validated (check_question question) λ w.
      respond (λ result w. (json 200 result, w))
        (answer embed_batch llm identity.tenant_id question req.segment query_result_k w)
