-- ===== src/HttpContext/Complete/Tests.antt =====
-- The theorems on `on_message_complete` of httpctx.c at concrete inputs.
use fast_http.Prelude.{
  ℕ, ◌-◌, ◌≤◌, ◌≡◌, refl, false, none, some, List, [], ◌∷◌, ◌++◌, arith, replicate,
}
use fast_http.Dynmem.{Dynmem}
use fast_http.Dynmem.Foreach.{memchr}
use fast_http.Dynmem.Sizes.{IsValid}
use fast_http.HttpContext.{
  HttpValue, Request, p_head_value, hc_http10, hc_http_get, get_http_header, get_http_header_uint,
  content_length_name,
}
use fast_http.HttpContext.Complete.{Completed, on_message_complete_lem, on_message_complete-unread}

-- `/a/?bc` and `Host: x`
abbrev received : ℕ → Dynmem
received n = record {
  len = n;
  cap = 16;
  page = 8;
  pages =
      record { addr = 64; bytes = 47 ∷ 97 ∷ 47 ∷ 63 ∷ 98 ∷ 99 ∷ 0 ∷ 0 ∷ [] }
      ∷ record { addr = 128; bytes = 72 ∷ 111 ∷ 115 ∷ 116 ∷ 58 ∷ 32 ∷ 120 ∷ 0 ∷ [] }
      ∷ [];
}

received-IsValid : (n : ℕ) → n ≤ 16 → IsValid (received n)
received-IsValid n h = record {
  exponent = 3;
  page_power = refl;
  page_small = omega arith;
  sized = (refl, (refl, tt));
  cap_pages = refl;
  cap_small = omega arith;
  len_in = h;
}

abbrev nothing : HttpValue
nothing = record { pos = 0; len = 0 }

abbrev parsed : ℕ → Request
parsed n = record {
  url = record { pos = 0; len = 6 };
  host = none;
  content_type = none;
  path = nothing;
  url_param = nothing;
  content_length = 0;
  headers =
      record { field = record { pos = 8; len = 4 }; value = record { pos = 14; len = 1 } } ∷ [];
  body = nothing;
  buffer = received n;
  parser_state = p_head_value;
  version = hc_http10;
  method = hc_http_get;
  keep_alive = false;
}

no_length :
    (n : ℕ)
    → get_http_header_uint (λ _. 0) (parsed n).headers (received n) content_length_name ≡ some 0
unfolding get_http_header_uint get_http_header
no_length n = refl

-- `/a/?bcContent-length7` and `hostx`, in two pages.
abbrev body_said : Dynmem
body_said = record {
  len = 40;
  cap = 64;
  page = 32;
  pages =
      record {
        addr = 64;
        bytes =
            (47 ∷ 97 ∷ 47 ∷ 63 ∷ 98 ∷ 99 ∷ [])
            ++ (67 ∷ 111 ∷ 110 ∷ 116 ∷ 101 ∷ 110 ∷ 116 ∷ 45 ∷ 108 ∷ 101 ∷ 110 ∷ 103 ∷ 116 ∷ 104
                ∷ [])
            ++ 55 ∷ replicate 11 0;
      }
      ∷ record { addr = 128; bytes = 104 ∷ 111 ∷ 115 ∷ 116 ∷ 120 ∷ replicate 27 0 }
      ∷ [];
}

body_said-IsValid : IsValid body_said
body_said-IsValid = record {
  exponent = 5;
  page_power = refl;
  page_small = omega arith;
  sized = (refl, (refl, tt));
  cap_pages = refl;
  cap_small = omega arith;
  len_in = omega arith;
}

abbrev with_length : Request
with_length = record (parsed 15) {
  buffer = body_said;
  headers =
      record { field = record { pos = 6; len = 14 }; value = record { pos = 20; len = 1 } }
      ∷ record { field = record { pos = 32; len = 4 }; value = record { pos = 36; len = 1 } }
      ∷ [];
}

-- The number of one digit.
abbrev one_digit : List ℕ → ℕ
one_digit [] = 0
one_digit (d ∷ ds) = d - 48

on_message_complete_lem_example :
    Completed one_digit 1 1 1 with_length 7 (47 ∷ 97 ∷ 47 ∷ []) (98 ∷ 99 ∷ [])
unfolding memchr
on_message_complete_lem_example =
    on_message_complete_lem one_digit 1 1 1 with_length body_said-IsValid
      ((omega arith, omega arith), ((omega arith, omega arith), tt)) (omega arith) (omega arith)
      (omega arith) (omega arith) (omega arith)

on_message_complete-unread_example :
    Completed (λ _. 0) 1 1 1 (parsed 0) 0 (47 ∷ 97 ∷ 47 ∷ 63 ∷ 98 ∷ 99 ∷ []) []
on_message_complete-unread_example =
    on_message_complete-unread (λ _. 0) 1 1 1 (parsed 0) 0 (received-IsValid 0 (omega arith))
      ((omega arith, omega arith), tt) (no_length 0) (omega arith) (omega arith) (omega arith)
