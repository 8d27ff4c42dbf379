-- ===== src/HttpServer/Answer/Log.antt =====
-- What `log_write_status` of httpserver.c adds up.
use fast_http.Prelude.{
  ℕ, ◌+◌, ◌^◌, ◌<◌, ◌≡◌, refl, ap, ◌∙◌, Option, none, some, List, [], ◌∷◌, ◌++◌, map, arith, u32,
  ◌>>=◌, >>=-some,
}
use fast_http.Dynmem.{Page, Pointer, null, place}
use fast_http.HttpServer.Answer.{UvBuf, terminator, log_write_status}
use fast_http.HttpServer.Answer.Piece.{piece_bytes, sent_bytes, sum_len}

-- Every piece of bytes that can be sent has a base.
record Based (b : UvBuf) : Type 0 where
  page : Page
  at : ℕ
  based : b.base ≡ place page at

piece-Based : (b : UvBuf) (bytes : List ℕ) → piece_bytes b ≡ some bytes → Based b
unfolding piece_bytes
piece-Based b bytes e = go b.base refl
  where
    go : (p : Pointer) → b.base ≡ p → Based b
    go null h =
        let nothing : ◌≡◌ {A = Option (List ℕ)} none (some bytes) = rw h at e in absurd (cc nothing)
    go (place n i) h = record { page = n; at = i; based = h }

-- One piece in front.
log_piece :
    (b : UvBuf) (rest : List (Option UvBuf))
    → Based b
    → log_write_status (some b ∷ rest)
      ≡ (log_write_status rest >>= λ count. some (u32 (b.len + count)))
unfolding log_write_status
log_piece b rest on = rw on.based refl

first_piece :
    (b : UvBuf) (bufs : List UvBuf) (bytes : List ℕ)
    → sent_bytes (b ∷ bufs) ≡ some bytes
    → (rest : List ℕ) × Based b × (sent_bytes bufs ≡ some rest)
unfolding sent_bytes
first_piece b bufs bytes e =
    let (first, e1, e2) = >>=-some (piece_bytes b) _ e in
    let (rest, e3, _) = >>=-some (sent_bytes bufs) _ e2 in (rest, piece-Based b first e1, e3)

-- In front of the terminator, all pieces are added up.
pub log-terminator :
    (bufs : List UvBuf) (bytes : List ℕ)
    → sent_bytes bufs ≡ some bytes
    → sum_len bufs < 2 ^ 32
    → log_write_status (map some bufs ++ some terminator ∷ []) ≡ some (sum_len bufs)
unfolding log_write_status
log-terminator [] bytes e fits = refl
log-terminator (b ∷ bufs) bytes e fits =
    let (rest, on, e') = first_piece b bufs bytes e in
    log_piece b (map some bufs ++ some terminator ∷ []) on
    ∙ rw (log-terminator bufs rest e' (omega arith))
        (ap some {x = u32 (b.len + sum_len bufs)} (omega arith))

-- With no terminator, the loop reads behind the array.
pub log-overrun :
    (bufs : List UvBuf) (bytes : List ℕ)
    → sent_bytes bufs ≡ some bytes
    → log_write_status (map some bufs) ≡ none
unfolding log_write_status
log-overrun [] bytes e = refl
log-overrun (b ∷ bufs) bytes e =
    let (rest, on, e') = first_piece b bufs bytes e in
    log_piece b (map some bufs) on ∙ rw (log-overrun bufs rest e') refl
