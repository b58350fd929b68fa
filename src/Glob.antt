-- ===== src/Glob.antt =====
-- `path_glob_to_like` of crates/rust-mcp/src/mcp/utils.rs: a file-path glob as a SQL `LIKE` pattern.
use rust_mcp.Prelude.{
  ℕ, ◌≡◌, refl, false, ◌||◌, List, [], ◌∷◌, Option, none, some, arith, ◌==◌, if◌then◌else◌,
}
use rust_mcp.Text.{Text}

-- The characters that one character of the glob becomes.
escape_char : ℕ → Text → Text
escape_char ch rest =
    if ch == b'*'
    then b'%' ∷ rest
    else if ch == b'?'
    then b'_' ∷ rest
    else if ch == b'%' || (ch == b'_' || ch == 92)
    then 92 ∷ ch ∷ rest
    else ch ∷ rest

unfoldable pub path_glob_to_like : Text → Text
unfolding escape_char
path_glob_to_like [] = []
path_glob_to_like (ch ∷ glob) = escape_char ch (path_glob_to_like glob)

-- What a pattern of either language asks for: a run of any characters, any one character, or one
-- certain character.
pub data Token : Type 0 where
  any_run : Token
  any_one : Token
  only : ℕ → Token

glob_token : ℕ → Token
glob_token ch = if ch == b'*' then any_run else if ch == b'?' then any_one else only ch

-- How a glob is read.
unfoldable pub glob_tokens : Text → List Token
unfolding glob_token
glob_tokens [] = []
glob_tokens (ch ∷ glob) = glob_token ch ∷ glob_tokens glob

abbrev consed : Token → Option (List Token) → Option (List Token)
consed t none = none
consed t (some ts) = some (t ∷ ts)

-- How PostgreSQL reads a `LIKE` pattern: `%` and `_` are wild, and a backslash takes the next
-- character as it is. A pattern that ends in a lone backslash is refused.
unfoldable pub like_tokens : Text → Option (List Token)
like_tokens [] = some []
like_tokens (c ∷ []) =
    if c == 92
    then none
    else if c == b'%'
    then some (any_run ∷ [])
    else if c == b'_'
    then some (any_one ∷ [])
    else some (only c ∷ [])
like_tokens (c ∷ d ∷ s) =
    let escaped = consed (only d) (like_tokens s) in
    let rest = like_tokens (d ∷ s) in
    if c == 92
    then escaped
    else consed (if c == b'%' then any_run else if c == b'_' then any_one else only c) rest

-- One unescaped character in front of a pattern.
like_tokens-plain :
    (c : ℕ) (s : Text)
    → (c == 92) ≡ false
    → like_tokens (c ∷ s)
      ≡ consed
          (if c == b'%' then any_run else if c == b'_' then any_one else only c)
          (like_tokens s)
unfolding like_tokens
like_tokens-plain c [] h = ground arith
like_tokens-plain c (d ∷ s) h = rw h

like_tokens-escaped :
    (d : ℕ) (s : Text) → like_tokens (92 ∷ d ∷ s) ≡ consed (only d) (like_tokens s)
unfolding like_tokens
like_tokens-escaped d s = refl

like_tokens-escape_char :
    (ch : ℕ) (s : Text) → like_tokens (escape_char ch s) ≡ consed (glob_token ch) (like_tokens s)
unfolding escape_char glob_token
like_tokens-escape_char ch s = ground (
  arith,
  like_tokens-plain b'%' s refl,
  like_tokens-plain b'_' s refl,
  like_tokens-escaped ch s,
  like_tokens-plain ch s,
)

-- The pattern asks for exactly what the glob asks for, token by token: every glob becomes a pattern
-- that PostgreSQL accepts, `*` and `?` become its wildcards, and no other character is wild.
pub like_tokens-path_glob_to_like :
    (glob : Text) → like_tokens (path_glob_to_like glob) ≡ some (glob_tokens glob)
unfolding path_glob_to_like glob_tokens
like_tokens-path_glob_to_like [] = unfold like_tokens in refl
like_tokens-path_glob_to_like (ch ∷ glob) =
    rw (like_tokens-escape_char, like_tokens-path_glob_to_like glob)
