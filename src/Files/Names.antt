-- ===== src/Files/Names.antt =====
-- Names of files, as `std::path` and `str` take them apart.
use ida_mcp.Base.{
  ℕ, suc, ◌≡◌, refl, ap, ◌∙◌, length, drop, Bool, true, false, ◌&&◌, ◌||◌, Option, none, some, [],
  ◌∷◌, ◌++◌, Text, text_eq, any, ◌==◌, if◌then◌else◌, arith,
}

-- What stands before the last `sep`.
unfoldable pub before_last : ℕ → Text → Option Text
before_last sep [] = none
before_last sep (c ∷ cs) = elim (before_last sep cs) [
  | some s ↦ some (c ∷ s)
  | none ↦ if c == sep then some [] else none
]

abbrev pub or_name : Text → Option Text → Text
or_name name none = name
or_name name (some []) = name
or_name name (some (c ∷ s)) = c ∷ s

-- `Path::with_extension("")` of a file name: a dot at the front starts no extension.
unfoldable pub without_extension : Text → Text
unfolding before_last
without_extension name = or_name name (before_last b'.' name)

abbrev pub rest_of : Text → Option Text → Option Text
rest_of name none = none
rest_of name (some []) = none
rest_of name (some (c ∷ s)) = some (drop (suc (suc (length s))) name)

-- `Path::extension` of a file name.
unfoldable pub extension : Text → Option Text
unfolding before_last
extension name = rest_of name (before_last b'.' name)

abbrev pub at_last_slash : Text → Option Text → Text
at_last_slash path none = without_extension path
at_last_slash path (some dir) = dir ++ b'/' ∷ without_extension (drop (suc (length dir)) path)

-- `Path::with_extension("")` of a path.
unfoldable pub path_without_extension : Text → Text
unfolding before_last without_extension
path_without_extension path = at_last_slash path (before_last b'/' path)

abbrev pub starts_with : Text → Text → Bool
starts_with [] s = true
starts_with (p ∷ ps) [] = false
starts_with (p ∷ ps) (c ∷ cs) = (p == c) && starts_with ps cs

-- `contains` and `ends_with` of `str`.
unfoldable pub contains : Text → Text → Bool
contains p [] = starts_with p []
contains p (c ∷ cs) = starts_with p (c ∷ cs) || contains p cs

unfoldable pub ends_with : Text → Text → Bool
ends_with p [] = text_eq p []
ends_with p (c ∷ cs) = text_eq p (c ∷ cs) || ends_with p cs

abbrev pub has_char : ℕ → Text → Bool
has_char sep = any (λ c. c == sep)

before_last-none : (sep : ℕ) (ext : Text) → has_char sep ext ≡ false → before_last sep ext ≡ none
unfolding before_last
before_last-none sep [] h = refl
before_last-none sep (c ∷ cs) h = ground (arith, before_last-none sep cs)

pub before_last-append :
    (sep : ℕ) (stem ext : Text)
    → has_char sep ext ≡ false
    → before_last sep (stem ++ sep ∷ ext) ≡ some stem
unfolding before_last
before_last-append sep [] ext h = ground (arith, before_last-none sep ext h)
before_last-append sep (c ∷ cs) ext h = ground (arith, before_last-append sep cs ext h)

drop-append : (s t : Text) (c : ℕ) → drop (suc (length s)) (s ++ c ∷ t) ≡ t
drop-append [] t c = refl
drop-append (d ∷ s) t c = drop-append s t c

-- The extension that was put on is the one that is taken off.
pub without_extension-append :
    (c : ℕ) (stem ext : Text)
    → has_char b'.' ext ≡ false
    → without_extension ((c ∷ stem) ++ b'.' ∷ ext) ≡ c ∷ stem
unfolding without_extension
without_extension-append c stem ext h =
    ap (or_name ((c ∷ stem) ++ b'.' ∷ ext)) (before_last-append b'.' (c ∷ stem) ext h)

-- A path loses its extension in its last component.
pub path_without_extension-append :
    (dir name : Text)
    → has_char b'/' name ≡ false
    → path_without_extension (dir ++ b'/' ∷ name) ≡ dir ++ b'/' ∷ without_extension name
unfolding path_without_extension
path_without_extension-append dir name h =
    ap (at_last_slash (dir ++ b'/' ∷ name)) (before_last-append b'/' dir name h)
    ∙ ap (λ n. dir ++ b'/' ∷ without_extension n) (drop-append dir name b'/')

contains_front : (p s t : Text) → contains p s ≡ true → contains p (t ++ s) ≡ true
unfolding contains
contains_front p s [] h = h
contains_front p s (c ∷ t) h = ground (arith, contains_front p s t h)

starts_with_self : (p s : Text) → starts_with p (p ++ s) ≡ true
starts_with_self [] s = refl
starts_with_self (c ∷ p) s = ground (arith, starts_with_self p s)

contains_self : (p s : Text) → contains p (p ++ s) ≡ true
unfolding contains
contains_self [] [] = refl
contains_self [] (c ∷ s) = refl
contains_self (c ∷ p) s = ground (arith, starts_with_self (c ∷ p) s)

-- A text contains whatever it was put together from.
pub contains-append : (p s t : Text) → contains p (t ++ (p ++ s)) ≡ true
contains-append p s t = contains_front p (p ++ s) t (contains_self p s)
