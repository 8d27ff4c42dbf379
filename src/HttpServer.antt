-- ===== src/HttpServer.antt =====
-- httpserver.c: what the server writes in front of a response's body, as far as it stands on the byte buffer.
pub mod Copy
pub mod Answer
mod Tests
use fast_http.Prelude.{
  ℕ, zero, suc, ◌+◌, ◌^◌, ◌≤◌, ◌<◌, ◌≡◌, Bool, true, false, Option, none, some, List, [], ◌∷◌, ◌==◌,
  if◌then◌else◌, ◌>>=◌, ◌>>◌, require, length,
}
use fast_http.Dynmem.{Dynmem, Malloc}
use fast_http.Dynmem.Foreach.{read, append}
use fast_http.HttpContext.{HttpValue}

-- The bytes of the array that the read does not fill are not set: to append them is a fault.
unfoldable pub mem_array_copyfrom : Malloc → Dynmem → HttpValue → Option Dynmem
mem_array_copyfrom mem pbuf src =
    let copied = read pbuf src.pos src.len >>= λ (n, tmp).
    require (n == src.len) >> (append mem pbuf tmp src.len >>= λ (_, pbuf'). some pbuf') in
    if src.len == 0 then some pbuf else copied

-- The text of a status, without its NUL
unfoldable pub get_message_by_status : ℕ → List ℕ
get_message_by_status status =
    if status == 200
    then 79 ∷ 75 ∷ []
    else if status == 201
    then 67 ∷ 114 ∷ 101 ∷ 97 ∷ 116 ∷ 101 ∷ 100 ∷ []
    else if status == 204
    then 78 ∷ 111 ∷ 32 ∷ 67 ∷ 111 ∷ 110 ∷ 116 ∷ 101 ∷ 110 ∷ 116 ∷ []
    else if status == 301
    then 77 ∷ 111 ∷ 118 ∷ 101 ∷ 100 ∷ 32 ∷ 80 ∷ 101 ∷ 114 ∷ 109 ∷ 97 ∷ 110 ∷ 101 ∷ 110 ∷ 116 ∷ 108
      ∷ 121 ∷ []
    else if status == 302
    then 70 ∷ 111 ∷ 117 ∷ 110 ∷ 100 ∷ []
    else if status == 304
    then 78 ∷ 111 ∷ 116 ∷ 32 ∷ 77 ∷ 111 ∷ 100 ∷ 105 ∷ 102 ∷ 105 ∷ 101 ∷ 100 ∷ []
    else if status == 400
    then 66 ∷ 97 ∷ 100 ∷ 32 ∷ 82 ∷ 101 ∷ 113 ∷ 117 ∷ 101 ∷ 115 ∷ 116 ∷ []
    else if status == 401
    then 85 ∷ 110 ∷ 97 ∷ 117 ∷ 116 ∷ 104 ∷ 111 ∷ 114 ∷ 105 ∷ 122 ∷ 101 ∷ 100 ∷ []
    else if status == 403
    then 70 ∷ 111 ∷ 114 ∷ 98 ∷ 105 ∷ 100 ∷ 100 ∷ 101 ∷ 110 ∷ []
    else if status == 404
    then 78 ∷ 111 ∷ 116 ∷ 32 ∷ 70 ∷ 111 ∷ 117 ∷ 110 ∷ 100 ∷ []
    else if status == 405
    then 77 ∷ 101 ∷ 116 ∷ 104 ∷ 111 ∷ 100 ∷ 32 ∷ 78 ∷ 111 ∷ 116 ∷ 32 ∷ 65 ∷ 108 ∷ 108 ∷ 111 ∷ 119
      ∷ 101 ∷ 100 ∷ []
    else if status == 500
    then 73 ∷ 110 ∷ 116 ∷ 101 ∷ 114 ∷ 110 ∷ 97 ∷ 108 ∷ 32 ∷ 83 ∷ 101 ∷ 114 ∷ 118 ∷ 101 ∷ 114 ∷ 32
      ∷ 69 ∷ 114 ∷ 114 ∷ 111 ∷ 114 ∷ []
    else 85 ∷ 110 ∷ 107 ∷ 110 ∷ 111 ∷ 119 ∷ 110 ∷ []
