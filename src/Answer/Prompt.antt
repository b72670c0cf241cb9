-- ===== src/Answer/Prompt.antt =====
-- answer/prompt.py: the user message of a request.
use cite_delta_rag.Prelude.{◌++◌, List, map}
use cite_delta_rag.Text.{Text, codes, join, strip}
use cite_delta_rag.Text.Decimal.{show}
use cite_delta_rag.Answer.Models.{Citation, in_force_label}

unfoldable pub block : Citation → Text
unfolding show
block c =
    codes "["
    ++ (show c.chunk_id
        ++ (codes "] "
            ++ (c.citation_path
                ++ (codes "\nin force: " ++ (in_force_label c ++ (codes "\n" ++ strip c.text))))))

unfoldable pub build_user_message : Text → Text → List Citation → Text
unfolding block join
build_user_message query as_of candidates =
    codes "Question: "
    ++ (query
        ++ (codes "\n\nAnswer as the regulation stood on "
            ++ (as_of
                ++ (codes ".\n\nExcerpts:\n\n"
                    ++ join (codes "\n\n---\n\n") (map block candidates)))))
