-- ===== src/Names.antt =====
-- `sanitizeFileName` of internal/usecase/storage/service.go, with `strings.TrimSpace` and
-- `filepath.Base` (on Unix) as it uses them. A text is its list of code points.
pub mod Safety
use cloud_zero_knowledge_sto.Base.{
  ℕ, Bool, ◌&&◌, ◌||◌, List, [], ◌∷◌, map, Text, leb, ◌==◌, if◌then◌else◌, text_eq, is_empty,
  contains,
}

-- `unicode.IsSpace`
unfoldable pub is_space : ℕ → Bool
is_space c =
    (leb 9 c && leb c 13)
    || c == 0x20
    || c == 0x85
    || c == 0xa0
    || c == 0x1680
    || (leb 0x2000 c && leb c 0x200a)
    || c == 0x2028
    || c == 0x2029
    || c == 0x202f
    || c == 0x205f
    || c == 0x3000

unfoldable pub trim_left : Text → Text
unfolding is_space
trim_left [] = []
trim_left (c ∷ s) = if is_space c then trim_left s else c ∷ s

unfoldable pub trim_right : Text → Text
unfolding is_space
trim_right [] = []
trim_right (c ∷ s) = let rest = trim_right s in if is_space c && is_empty rest then [] else c ∷ rest

unfoldable pub trim_space : Text → Text
unfolding trim_left trim_right
trim_space s = trim_right (trim_left s)

abbrev pub slash : ℕ
slash = b'/'

abbrev pub backslash : ℕ
backslash = 92

abbrev pub dot : Text
dot = b'.' ∷ []

abbrev pub dot_dot : Text
dot_dot = b'.' ∷ b'.' ∷ []

-- `file.bin`
abbrev pub default_name : Text
default_name = b'f' ∷ b'i' ∷ b'l' ∷ b'e' ∷ b'.' ∷ b'b' ∷ b'i' ∷ b'n' ∷ []

-- `strings.ReplaceAll(name, "\\", "/")`
unfoldable pub to_slashes : Text → Text
to_slashes = map λ c. if c == backslash then slash else c

unfoldable pub strip_slashes : Text → Text
strip_slashes [] = []
strip_slashes (c ∷ s) =
    let rest = strip_slashes s in if c == slash && is_empty rest then [] else c ∷ rest

-- What follows the last slash.
unfoldable pub last_element : Text → Text
last_element [] = []
last_element (c ∷ s) =
    let rest = last_element s in if contains s slash then rest else if c == slash then s else c ∷ s

unfoldable pub base : Text → Text
unfolding strip_slashes last_element
base path =
    let s = last_element (strip_slashes path) in
    if is_empty path then dot else if is_empty s then slash ∷ [] else s

abbrev pub unless_dots : Text → Text
unless_dots name = if text_eq name dot || text_eq name dot_dot then default_name else name

unfoldable pub sanitize_file_name : Text → Text
sanitize_file_name name =
    let trimmed = trim_space name in
    if is_empty trimmed then default_name else unless_dots (base (to_slashes trimmed))
