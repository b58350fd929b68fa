-- ===== src/Examples/Pages.antt =====
-- Cursors, pages and globs on concrete inputs.
use rust_mcp.Prelude.{ℕ, ◌≡◌, refl, List, [], ◌∷◌, some, arith, ok}
use rust_mcp.Text.{codes}
use rust_mcp.Glob.{path_glob_to_like, like_tokens, glob_tokens, like_tokens-path_glob_to_like}
use rust_mcp.Pagination.{decode_cursor, encode_cursor, decode_cursor-encode_cursor}
use rust_mcp.Pagination.Walk.{walk, walk-drop}
use rust_mcp.Examples.Instances.{token_codec, token_fields, token_codec-IsFaithful, make_token}

abbrev glob : List ℕ
glob = codes "src/*_t?%.rs"

like_tokens-path_glob_to_like_example :
    like_tokens (path_glob_to_like glob) ≡ some (glob_tokens glob)
like_tokens-path_glob_to_like_example = like_tokens-path_glob_to_like glob

decode_cursor-encode_cursor_example :
    decode_cursor token_codec token_fields (64 ∷ 1 ∷ 25 ∷ 50 ∷ []) ≡ ok (make_token 50 25)
decode_cursor-encode_cursor_example =
    decode_cursor-encode_cursor token_codec token_fields token_codec-IsFaithful (make_token 50 25)
      (64 ∷ 1 ∷ 25 ∷ 50 ∷ []) refl (omega arith) (unfold encode_cursor in refl)

abbrev seven : List ℕ
seven = 0 ∷ 1 ∷ 2 ∷ 3 ∷ 4 ∷ 5 ∷ 6 ∷ []

walk-drop_example :
    walk token_codec token_fields make_token seven 6
      (record { offset = 2; limit = 2; effective_page = 2 })
    ≡ some (2 ∷ 3 ∷ 4 ∷ 5 ∷ 6 ∷ [])
walk-drop_example =
    walk-drop token_codec token_fields make_token seven (omega arith) token_codec-IsFaithful
      (λ t e. cc) (λ o l. refl) (λ o l. refl) (λ o l. refl) 6
      (record { offset = 2; limit = 2; effective_page = 2 }) (omega arith) (omega arith)
