-- ===== src/HttpServer/Answer/Line.antt =====
-- What the status line of httpserver.c leaves in the buffer.
use native.Mathlib.Nat.{mod-eq-sub-mod, mod-eq_of_lt}
use fast_http.Prelude.{
  ℕ, ◌+◌, ◌-◌, ◌*◌, ◌%◌, ◌≤◌, ◌<◌, ◌≡◌, refl, sym, ap, ap₂, ◌∙◌, Option, some, List, [], ◌∷◌, ◌++◌,
  append_assoc, arith, u32, length, take, drop, length-append, length-take, length-drop, take-all,
  take-append_le, take-append_ge, drop-append_le, drop-append_ge, dec_lt,
}
use fast_http.Dynmem.{Page, Dynmem, next_surplus}
use fast_http.Dynmem.Walk.{flat, Sized}
use fast_http.Dynmem.Sizes.{IsValid, contents, page_bounds, surplus_lem}
use fast_http.Dynmem.Sizes.Growth.{length-flat-pages}
use fast_http.HttpServer.Answer.{store_at, print_next}
use fast_http.HttpServer.Answer.Piece.{page_end}

record Stored (ps pos : ℕ) (bytes : List ℕ) (pages : List Page) (result : Option (List Page))
    : Type 0 where
  pub out : List Page
  pub returns : result ≡ some out
  pub sized : Sized ps out
  pub same_count : length out ≡ length pages
  pub holds : flat out ≡ take pos (flat pages) ++ (bytes ++ drop (pos + length bytes) (flat pages))

store-here :
    (ps pos : ℕ) (bytes : List ℕ) (n : Page) (ns : List Page)
    → pos < ps
    → pos + length bytes ≤ ps
    → Sized ps (n ∷ ns)
    → Stored ps pos bytes (n ∷ ns) (store_at ps pos bytes (n ∷ ns))
unfolding store_at
store-here ps pos bytes n ns near fits hs =
    let rest = drop (pos + length bytes) n.bytes in
    record {
      out = record n { bytes = take pos n.bytes ++ (bytes ++ rest) } ∷ ns;
      returns = ground (arith, hs.0);
      sized = (
        length-append (take pos n.bytes) (bytes ++ rest)
            ∙ omega (
              arith,
              length-append bytes rest,
              length-take pos n.bytes,
              length-drop (pos + length bytes) n.bytes,
              hs.0,
            ),
        hs.1,
      );
      same_count = refl;
      holds =
          append_assoc (take pos n.bytes) (bytes ++ rest) (flat ns)
          ∙ ap₂ (λ a b. a ++ b) (sym (take-append_le pos n.bytes (flat ns) (omega (arith, hs.0))))
              (append_assoc bytes rest (flat ns)
                ∙ ap (λ l. bytes ++ l)
                    (sym (
                      drop-append_le (pos + length bytes) n.bytes (flat ns)
                        (omega (arith, hs.0)))));
    }

store-later :
    (ps pos : ℕ) (bytes : List ℕ) (n : Page) (ns : List Page)
    → ps ≤ pos
    → Sized ps (n ∷ ns)
    → Stored ps (pos - ps) bytes ns (store_at ps (pos - ps) bytes ns)
    → Stored ps pos bytes (n ∷ ns) (store_at ps pos bytes (n ∷ ns))
unfolding store_at
store-later ps pos bytes n ns far hs r = record {
  out = n ∷ r.out;
  returns = ground (arith, r.returns);
  sized = (hs.0, r.sized);
  same_count = omega (arith, r.same_count);
  holds =
      ap (λ l. n.bytes ++ l) r.holds
      ∙ (sym (append_assoc n.bytes (take (pos - ps) (flat ns)) _)
          ∙ ap₂ (λ a b. a ++ (bytes ++ b))
              (sym (take-append_ge pos (pos - ps) n.bytes (flat ns) (omega (arith, hs.0))))
              (sym (
                drop-append_ge (pos + length bytes) (pos - ps + length bytes) n.bytes (flat ns)
                  (omega (arith, hs.0)))));
}

store_at-Stored :
    (ps pos : ℕ) (bytes : List ℕ) (pages : List Page)
    → 0 < ps
    → Sized ps pages
    → pos < length pages * ps
    → pos % ps + length bytes ≤ ps
    → Stored ps pos bytes pages (store_at ps pos bytes pages)
store_at-Stored ps pos bytes [] hp hs h fits = absurd (omega arith)
store_at-Stored ps pos bytes (n ∷ ns) hp hs h fits = elim (dec_lt pos ps) [
  | yes near ↦ store-here ps pos bytes n ns near (omega (arith, mod-eq_of_lt near)) hs
  | no near ↦
      let far : ps ≤ pos = omega arith in
      store-later ps pos bytes n ns far hs (
        store_at-Stored ps (pos - ps) bytes ns hp hs.1 (omega arith)
          (omega (arith, mod-eq-sub-mod far)))
]

-- What is added behind the contents.
pub record Extended (m : Dynmem) (bytes : List ℕ) (m' : Dynmem) : Type 0 where
  pub valid : IsValid m'
  pub same_page : m'.page ≡ m.page
  pub grows : m'.len ≡ m.len + length bytes
  pub holds : contents m' ≡ contents m ++ bytes

-- The buffer with the text and its NUL, and the length moved over the text.
Stored-Extended :
    {m : Dynmem} (text : List ℕ) (pages : List Page)
    → IsValid m
    → m.len + length text + 1 ≤ m.cap
    → Sized m.page pages
    → length pages ≡ length m.pages
    → flat pages
      ≡ take m.len (flat m.pages)
        ++ ((text ++ 0 ∷ []) ++ drop (m.len + length (text ++ 0 ∷ [])) (flat m.pages))
    → Extended m text (record m { pages = pages; len = u32 (m.len + length text) })
Stored-Extended {m} text pages v room sized same_count holds =
    let no_wrap : u32 (m.len + length text) ≡ m.len + length text =
      omega (arith, room, v.cap_small) in
    let rest = drop (m.len + length (text ++ 0 ∷ [])) (flat m.pages) in
    let stored : length (take m.len (flat m.pages)) ≡ m.len =
      omega (arith, length-take m.len (flat m.pages), length-flat-pages v, v.len_in) in
    record {
      valid = record {
        exponent = v.exponent;
        page_power = v.page_power;
        page_small = v.page_small;
        sized = sized;
        cap_pages = v.cap_pages ∙ ap (λ (k : ℕ). k * m.page) (sym same_count);
        cap_small = v.cap_small;
        len_in = omega (arith, no_wrap);
      };
      same_page = refl;
      grows = no_wrap;
      holds =
          ap₂ take no_wrap holds
          ∙ take-append_ge (m.len + length text) (length text) (take m.len (flat m.pages))
              ((text ++ 0 ∷ []) ++ rest) (omega (arith, stored))
          ∙ ap (λ l. contents m ++ l)
              (take-append_le (length text) (text ++ 0 ∷ []) rest
                  (omega (arith, length-append text (0 ∷ [])))
                ∙ take-append_le (length text) text (0 ∷ []) (omega arith)
                ∙ take-all (length text) text (omega arith));
    }

print-returns :
    (m : Dynmem) (text : List ℕ) (pages : List Page)
    → take (next_surplus m - 1) text ≡ text
    → store_at m.page m.len (text ++ 0 ∷ []) m.pages ≡ some pages
    → print_next m text ≡ some (length text, record m { pages = pages })
unfolding print_next
print-returns m text pages e0 e1 = rw (e0, e1) refl

-- In a well-formed buffer with room for a text and its NUL in the page at the end of the contents,
-- `snprintf` and moving the length over the text put the text behind the contents.
pub print_next_lem :
    {m : Dynmem} (text : List ℕ)
    → IsValid m
    → m.len < m.cap
    → length text < next_surplus m
    → (m' : Dynmem) × (print_next m text ≡ some (length text, m'))
      × Extended m text (record m' { len = u32 (m'.len + length text) })
unfolding next_surplus
print_next_lem {m} text v room fits =
    let cut : take (next_surplus m - 1) text ≡ text = take-all _ text (omega arith) in
    let put = text ++ 0 ∷ [] in
    let size : length put ≡ length text + 1 = length-append text (0 ∷ []) in
    let space = surplus_lem m.len v in
    let r =
      store_at-Stored m.page m.len put m.pages (page_bounds v).0 v.sized
        (omega (arith, v.cap_pages)) (omega (arith, space, size)) in
    (
      record m { pages = r.out },
      print-returns m text r.out cut r.returns,
      Stored-Extended text r.out v (omega (arith, page_end m.len v room)) r.sized r.same_count
          r.holds,
    )
