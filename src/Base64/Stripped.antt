-- ===== src/Base64/Stripped.antt =====
-- How far base64.c's decoder looks: the characters before the `=` and line breaks at the end.
use fast_http.Prelude.{
  ℕ, zero, suc, ◌≡◌, refl, true, false, Bool, Option, none, some, List, ◌∷◌, if◌then◌else◌, ◌>>=◌,
  get_elem?,
}
use fast_http.Base64.Decode.{is_end, strip_end}

-- One look at the last character, for a text and for the text with one more in front.
look_later :
    (o r r' : Option ℕ) (n m : ℕ)
    → (r ≡ some m → r' ≡ some (suc m))
    → (o >>= λ c. if is_end c then r else some n) ≡ some m
    → (o >>= λ c. if is_end c then r' else some (suc n)) ≡ some (suc m)
look_later none r r' n m f h = cc
look_later (some c) r r' n m f h = choose (is_end c) h
  where
    choose :
        (b : Bool)
        → (if b then r else some n) ≡ some m
        → (if b then r' else some (suc n)) ≡ some (suc m)
    choose true h = f h
    choose false h = cc

look_end :
    (o r r' : Option ℕ) (n : ℕ)
    → (r ≡ some 0 → r' ≡ some 0)
    → (o >>= λ c. if is_end c then r else some (suc n)) ≡ some 0
    → (o >>= λ c. if is_end c then r' else some (suc (suc n))) ≡ some 0
look_end none r r' n f h = cc
look_end (some c) r r' n f h = choose (is_end c) h
  where
    choose :
        (b : Bool)
        → (if b then r else some (suc n)) ≡ some 0
        → (if b then r' else some (suc (suc n))) ≡ some 0
    choose true h = f h
    choose false h = cc

-- A character that is none of those counts.
pub strip_end-plain :
    (x : ℕ) (text : List ℕ) (n m : ℕ)
    → is_end x ≡ false
    → strip_end text n ≡ some m
    → strip_end (x ∷ text) (suc n) ≡ some (suc m)
unfolding strip_end
strip_end-plain x text zero m plain h = rw plain cc
strip_end-plain x text (suc n) m plain h =
    look_later (get_elem? text n) (strip_end text n) (strip_end (x ∷ text) (suc n)) (suc n) m
      (strip_end-plain x text n m plain) h

-- In front of a character that counts, every character does.
pub strip_end-any :
    (x : ℕ) (text : List ℕ) (n m : ℕ)
    → strip_end text n ≡ some (suc m)
    → strip_end (x ∷ text) (suc n) ≡ some (suc (suc m))
unfolding strip_end
strip_end-any x text zero m h = cc
strip_end-any x text (suc n) m h =
    look_later (get_elem? text n) (strip_end text n) (strip_end (x ∷ text) (suc n)) (suc n) (suc m)
      (strip_end-any x text n m) h

pub strip_end-more :
    (x : ℕ) (text : List ℕ) (n : ℕ)
    → is_end x ≡ true
    → strip_end text n ≡ some 0
    → strip_end (x ∷ text) (suc n) ≡ some 0
unfolding strip_end
strip_end-more x text zero more h = rw more refl
strip_end-more x text (suc n) more h =
    look_end (get_elem? text n) (strip_end text n) (strip_end (x ∷ text) (suc n)) n
      (strip_end-more x text n more) h
