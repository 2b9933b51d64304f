-- ===== src/Search/Patterns.antt =====
-- `ILIKE` with `ESCAPE '\'`, as the queries of internal/repo/persistent/postgres use it, and
-- `escapeLike` of internal/repo/persistent/postgres/storage.go.
use mathlib.Core.Option
use cloud_zero_knowledge_sto.Base.{
  ℕ, Bool, true, false, ◌&&◌, ◌||◌, Option, none, some, List, [], ◌∷◌, Text, ◌==◌, if◌then◌else◌,
  is_empty,
}
use cloud_zero_knowledge_sto.Names.{backslash}

abbrev pub percent : ℕ
percent = b'%'

abbrev pub underscore : ℕ
underscore = b'_'

-- `strings.ReplaceAll(s, c, "\\" + c)` for a text `c` of one character.
unfoldable pub escape_one : ℕ → Text → Text
escape_one c [] = []
escape_one c (x ∷ s) =
    let rest = escape_one c s in if x == c then backslash ∷ x ∷ rest else x ∷ rest

unfoldable pub escape_like : Text → Text
unfolding escape_one
escape_like s = escape_one underscore (escape_one percent (escape_one backslash s))

-- The elements of a pattern.
pub data Token : Type 0 where
  any_run any_one : Token
  literal : ℕ → Token

abbrev pub token_of : ℕ → Token
token_of c = if c == percent then any_run else if c == underscore then any_one else literal c

-- Read a pattern; the flag says that the character before was the escape. A pattern that ends with
-- an escape is an error.
unfoldable pub parse : Bool → Text → Option (List Token)
parse false [] = some []
parse true [] = none
parse false (c ∷ s) =
    let escaped = parse true s in
    let plain = Option.map (λ ts. token_of c ∷ ts) (parse false s) in
    if c == backslash then escaped else plain
parse true (c ∷ s) = Option.map (λ ts. literal c ∷ ts) (parse false s)

abbrev pub some_suffix : (Text → Bool) → Text → Bool
some_suffix f [] = f []
some_suffix f (c ∷ s) = f (c ∷ s) || some_suffix f s

-- Whether a text matches, letters compared as `fold` has them.
unfoldable pub matches : (ℕ → ℕ) → List Token → Text → Bool
matches fold [] s = is_empty s
matches fold (any_run ∷ ts) s = some_suffix (matches fold ts) s
matches fold (any_one ∷ ts) [] = false
matches fold (any_one ∷ ts) (c ∷ s) = matches fold ts s
matches fold (literal x ∷ ts) [] = false
matches fold (literal x ∷ ts) (c ∷ s) = fold x == fold c && matches fold ts s
