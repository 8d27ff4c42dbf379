-- ===== src/FilePath.antt =====
-- log.c: the functions on file names. A name is a C string, or `none` for NULL; the destination may be NULL,
-- and what a call writes there is `none` where it writes nothing. The result -1 is `none`.
pub mod Split
mod Tests
use fast_http.Prelude.{
  ℕ, zero, suc, ◌+◌, ◌-◌, Bool, true, false, ◌&&◌, not, Option, none, some, List, [], ◌∷◌, ◌++◌,
  ltb, leb, ◌==◌, if◌then◌else◌, length, take, drop, get_or,
}

-- `PATH_SEP`
abbrev pub path_sep : ℕ
path_sep = b'/'

-- What is written to the destination, and how far the source goes, its NUL not counted.
unfoldable pub log_strcpy : List ℕ → List ℕ × ℕ
log_strcpy [] = (0 ∷ [], 0)
log_strcpy (c ∷ src) = let (written, n) = log_strcpy src in (c ∷ written, n + 1)

-- The end of the name, in front of a separator that it ends in.
unfoldable pub name_end : List ℕ → ℕ
name_end filename =
    let fend = length filename in
    if get_or filename (fend - 1) 0 == path_sep then fend - 1 else fend

-- The place behind the last separator in front of `pos`.
unfoldable pub after_sep : List ℕ → ℕ → ℕ
after_sep filename zero = zero
after_sep filename (suc pos) =
    let rest = after_sep filename pos in if get_or filename pos 0 == path_sep then suc pos else rest

-- The last separator from `fend` on to the front.
unfoldable pub before_sep : List ℕ → ℕ → ℕ
before_sep filename zero = zero
before_sep filename (suc fend) =
    let rest = before_sep filename fend in
    if get_or filename (suc fend) 0 == path_sep then suc fend else rest

unfoldable pub get_basename : Bool → ℕ → Option (List ℕ) → Option (List ℕ) × Option ℕ
get_basename dst dstlen none = (if dst then some (0 ∷ []) else none, some 0)
get_basename dst dstlen (some []) = (if dst then some (0 ∷ []) else none, some 0)
get_basename dst dstlen (some (c ∷ rest)) =
    let filename = c ∷ rest in
    let fend = name_end filename in
    let pos = after_sep filename fend in
    let cpylen = if ltb pos fend then fend - pos else 0 in
    let copied : Option (List ℕ) × Option ℕ =
      (some (take cpylen (drop pos filename) ++ 0 ∷ []), some cpylen) in
    if dst then (if leb dstlen cpylen then (none, none) else copied) else (none, some cpylen)

unfoldable pub get_fielpath : Bool → ℕ → Option (List ℕ) → Option (List ℕ) × Option ℕ
get_fielpath dst dstlen none = (if dst then some (0 ∷ []) else none, some 0)
get_fielpath dst dstlen (some []) = (if dst then some (0 ∷ []) else none, some 0)
get_fielpath dst dstlen (some (c ∷ rest)) =
    let filename = c ∷ rest in
    let cpylen = before_sep filename (name_end filename) in
    let copied : Option (List ℕ) × Option ℕ =
      (some (take cpylen filename ++ 0 ∷ []), some cpylen) in
    if dst && not (cpylen == 0)
    then (if leb dstlen cpylen then (none, none) else copied)
    else (none, some cpylen)
