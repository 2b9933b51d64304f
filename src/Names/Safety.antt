-- ===== src/Names/Safety.antt =====
-- What `sanitizeFileName` of internal/usecase/storage/service.go lets through.
use cloud_zero_knowledge_sto.Base.{
  ℕ, Bool, true, false, ◌&&◌, ◌||◌, [], ◌∷◌, Text, ◌≡◌, refl, ◌⊎◌, inl, inr, arith, ◌==◌,
  if◌then◌else◌, text_eq, is_empty, contains, Bool-cases,
}
use cloud_zero_knowledge_sto.Names.{
  is_space, trim_left, trim_right, trim_space, slash, backslash, dot, dot_dot, default_name,
  to_slashes, strip_slashes, last_element, base, unless_dots, sanitize_file_name,
}

-- A name of one path element: not empty, not `.` or `..`, and with no separator of either kind.
pub record IsElement (s : Text) : Type 0 where
  pub no_slash : contains s slash ≡ false
  pub no_backslash : contains s backslash ≡ false
  pub not_empty : is_empty s ≡ false
  pub not_dot : text_eq s dot ≡ false
  pub not_dot_dot : text_eq s dot_dot ≡ false

to_slashes_clean : (s : Text) → contains (to_slashes s) backslash ≡ false
unfolding to_slashes
to_slashes_clean [] = refl
to_slashes_clean (c ∷ s) = ground (arith, to_slashes_clean s)

strip_slashes-sub : (s : Text) (c : ℕ) → contains s c ≡ false → contains (strip_slashes s) c ≡ false
unfolding strip_slashes
strip_slashes-sub [] c h = refl
strip_slashes-sub (x ∷ s) c h = ground (arith, strip_slashes-sub s c)

last_element-sub : (s : Text) (c : ℕ) → contains s c ≡ false → contains (last_element s) c ≡ false
unfolding last_element
last_element-sub [] c h = refl
last_element-sub (x ∷ s) c h = ground (arith, last_element-sub s c)

last_element_clean : (s : Text) → contains (last_element s) slash ≡ false
unfolding last_element
last_element_clean [] = refl
last_element_clean (x ∷ s) = ground (arith, last_element_clean s)

-- Of a path with no backslash: a slash alone, or one element.
base_cases :
    (path : Text)
    → contains path backslash ≡ false
    → (base path ≡ slash ∷ [])
      ⊎ ((contains (base path) slash ≡ false)
          × (contains (base path) backslash ≡ false)
          × (is_empty (base path) ≡ false))
unfolding base
base_cases path h = ground (
  arith,
  last_element_clean (strip_slashes path),
  last_element-sub (strip_slashes path) backslash,
  strip_slashes-sub path backslash,
)

unless_dots-IsElement :
    (s : Text)
    → contains s slash ≡ false
    → contains s backslash ≡ false
    → is_empty s ≡ false
    → IsElement (unless_dots s)
unless_dots-IsElement s h k n = ground arith

clean_path :
    (path : Text)
    → contains path backslash ≡ false
    → (unless_dots (base path) ≡ slash ∷ []) ⊎ IsElement (unless_dots (base path))
clean_path path h = elim (base_cases path h) [
  | inl root ↦ inl (rw root refl)
  | inr (s, b, n) ↦ inr (unless_dots-IsElement (base path) s b n)
]

default_name-IsElement : IsElement default_name
default_name-IsElement = record {
  no_slash = refl;
  no_backslash = refl;
  not_empty = refl;
  not_dot = refl;
  not_dot_dot = refl;
}

-- The cleaned name of a file is one path element, with a single exception: it can be `/`.
pub sanitize_file_name-IsElement :
    (name : Text) → (sanitize_file_name name ≡ slash ∷ []) ⊎ IsElement (sanitize_file_name name)
unfolding sanitize_file_name
sanitize_file_name-IsElement name = elim (Bool-cases (is_empty (trim_space name))) [
  | inl blank ↦ rw blank (inr default_name-IsElement)
  | inr given ↦
      rw given (clean_path (to_slashes (trim_space name)) (to_slashes_clean (trim_space name)))
]

-- A text of slashes and backslashes alone.
abbrev pub only_separators : Text → Bool
only_separators [] = true
only_separators (c ∷ s) = (c == slash || c == backslash) && only_separators s

separator_cases : (c : ℕ) → (c == slash || c == backslash) ≡ true → (c ≡ slash) ⊎ (c ≡ backslash)
separator_cases c h = ground arith

separators_cases :
    (c : ℕ) (s : Text)
    → only_separators (c ∷ s) ≡ true
    → ((c ≡ slash) ⊎ (c ≡ backslash)) × (only_separators s ≡ true)
separators_cases c s h = ground (arith, separator_cases c)

separator-is_space : (c : ℕ) → (c ≡ slash) ⊎ (c ≡ backslash) → is_space c ≡ false
unfolding is_space
separator-is_space c (inl e) = rw e refl
separator-is_space c (inr e) = rw e refl

separator-to_slash :
    (c : ℕ) → (c ≡ slash) ⊎ (c ≡ backslash) → (if c == backslash then slash else c) ≡ slash
separator-to_slash c (inl e) = rw e refl
separator-to_slash c (inr e) = rw e refl

separators-trim_left : (s : Text) → only_separators s ≡ true → trim_left s ≡ s
unfolding trim_left
separators-trim_left [] h = refl
separators-trim_left (c ∷ s) h = rw (separator-is_space c (separators_cases c s h).0) refl

separators-trim_right : (s : Text) → only_separators s ≡ true → trim_right s ≡ s
unfolding trim_right
separators-trim_right [] h = refl
separators-trim_right (c ∷ s) h =
    let (sep, rest) = separators_cases c s h in
    rw (separator-is_space c sep, separators-trim_right s rest) refl

separators-strip : (s : Text) → only_separators s ≡ true → strip_slashes (to_slashes s) ≡ []
unfolding strip_slashes to_slashes
separators-strip [] h = refl
separators-strip (c ∷ s) h =
    let (sep, rest) = separators_cases c s h in
    rw (separator-to_slash c sep, separators-strip s rest) refl

to_slashes_not_empty : (c : ℕ) (s : Text) → is_empty (to_slashes (c ∷ s)) ≡ false
unfolding to_slashes
to_slashes_not_empty c s = refl

base_root :
    (c : ℕ) (s : Text) → only_separators (c ∷ s) ≡ true → base (to_slashes (c ∷ s)) ≡ slash ∷ []
unfolding base last_element
base_root c s h =
    let not_blank : is_empty (to_slashes (c ∷ s)) ≡ false = to_slashes_not_empty c s in
    rw (separators-strip (c ∷ s) h, not_blank) refl

-- A name that is not empty and has nothing but slashes and backslashes becomes `/`.
pub sanitize_file_name_root :
    (c : ℕ) (s : Text) → only_separators (c ∷ s) ≡ true → sanitize_file_name (c ∷ s) ≡ slash ∷ []
unfolding sanitize_file_name trim_space
sanitize_file_name_root c s h =
    rw (separators-trim_left (c ∷ s) h, separators-trim_right (c ∷ s) h, base_root c s h) refl
