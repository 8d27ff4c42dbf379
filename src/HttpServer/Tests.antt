-- ===== src/HttpServer/Tests.antt =====
-- The theorems on httpserver.c at concrete inputs.
use fast_http.Prelude.{
  ℕ, ◌+◌, ◌*◌, ◌%◌, ◌≤◌, ◌<◌, ◌≡◌, refl, true, none, some, List, [], ◌∷◌, ◌++◌, map, arith, u32,
  length, replicate, length-replicate, slice,
}
use fast_http.Dynmem.{Dynmem, Malloc, next_surplus}
use fast_http.Dynmem.Walk.{flat}
use fast_http.Dynmem.Sizes.{IsValid, surplus_lem}
use fast_http.HttpContext.Response.{Response, hc_body_memory, bytes_of}
use fast_http.HttpServer.{get_message_by_status}
use fast_http.HttpServer.Answer.{
  UvBuf, Written, terminator, fill_uv_buf_ts, resp_status, decimal, body_length, write_http_header,
  write_http_resp, log_write_status,
}
use fast_http.HttpServer.Answer.Piece.{sent_bytes, sum_len}
use fast_http.HttpServer.Answer.Line.{Extended}
use fast_http.HttpServer.Answer.Lines.{header_text, line_of, lines_of, content_type_of}
use fast_http.HttpServer.Answer.Fill.{fill_uv_buf_ts_lem}
use fast_http.HttpServer.Answer.Header.{status_line, write_http_header_lem}
use fast_http.HttpServer.Answer.Send.{Ready}
use fast_http.HttpServer.Answer.Whole.{write_http_resp_lem, write_http_resp-overrun}

abbrev zeroed : Malloc
zeroed = record {
  block = λ ps n. record { addr = 4096 + 64 * length ps; bytes = replicate n 0 };
  length-block = λ ps n. length-replicate n 0;
}

abbrev advance : Dynmem → ℕ → Dynmem
advance m n = record m { len = u32 (m.len + n) }

-- Two pages of 128 bytes.
abbrev sevens : ℕ → Dynmem
sevens n = record {
  len = n;
  cap = 256;
  page = 128;
  pages =
      record { addr = 1024; bytes = replicate 128 7 }
      ∷ record { addr = 2048; bytes = replicate 128 8 }
      ∷ [];
}

sevens-IsValid : (n : ℕ) → n ≤ 256 → IsValid (sevens n)
sevens-IsValid n h = record {
  exponent = 7;
  page_power = refl;
  page_small = omega arith;
  sized = (refl, (refl, tt));
  cap_pages = refl;
  cap_small = omega arith;
  len_in = h;
}

-- The range touches both pages, and the last piece goes past it to the end of the second.
fill_uv_buf_ts_lem_example :
    (bufs : List UvBuf) × (fill_uv_buf_ts (sevens 256) 100 140 ≡ some bufs)
    × (sent_bytes bufs ≡ some (slice 100 (sum_len bufs) (flat (sevens 256).pages)))
    × (140 ≤ sum_len bufs)
    × (100 % 128 + 140 ≤ length bufs * 128)
    × (length bufs * 128 < 100 % 128 + 140 + 128)
    × (100 % 128 + 140 ≤ 128 → sum_len bufs ≡ 140)
    × (128 ≤ 140 → sum_len bufs + 100 % 128 ≡ length bufs * 128)
fill_uv_buf_ts_lem_example =
    fill_uv_buf_ts_lem 100 140 (sevens-IsValid 256 (omega arith)) (omega arith) (omega arith)

-- A body at the start of the buffer, and a header whose field and value are bytes of it.
abbrev answer : ℕ → ℕ → ℕ → Response
answer n pos len = record {
  status = 200;
  keep_alive = true;
  content_length = 0;
  body_type = hc_body_memory;
  content_type = record { pos = 0; len = 0 };
  headers =
      record { field = record { pos = 0; len = 2 }; value = record { pos = 2; len = 3 } } ∷ [];
  body = record { pos = pos; len = len };
  buffer = sevens n;
}

size_line :
    (length (status_line (answer 10 0 5)) ≡ 54) × (length (status_line (answer 130 120 10)) ≡ 55)
unfolding resp_status decimal get_message_by_status body_length
size_line = (refl, refl)

size_header : length (header_text (answer 10 0 5)) ≡ 89
unfolding header_text resp_status decimal get_message_by_status body_length content_type_of lines_of
    line_of
size_header = refl

size_over : length (header_text (answer 130 120 10)) ≡ 90
unfolding header_text resp_status decimal get_message_by_status body_length content_type_of lines_of
    line_of
size_over = refl

write_http_header_lem_example :
    (after : Dynmem) × (write_http_header zeroed advance (answer 10 0 5)
      ≡ some (length (header_text (answer 10 0 5)), after))
    × Extended (sevens 10) (header_text (answer 10 0 5)) after
unfolding next_surplus
write_http_header_lem_example =
    write_http_header_lem zeroed advance (answer 10 0 5) (λ m n. refl)
      (sevens-IsValid 10 (omega arith)) (omega arith)
      (omega (arith, size_line.0, surplus_lem 10 (sevens-IsValid 10 (omega arith)))) (omega arith)
      (omega arith, omega arith, tt) (omega (arith, size_header))

answer-Ready : Ready (answer 10 0 5)
answer-Ready = record {
  valid = sevens-IsValid 10 (omega arith);
  room = omega (arith, size_header);
  line = omega (arith, size_line.0);
  in_type = omega arith;
  in_headers = (omega arith, omega arith, tt);
  in_body = omega arith;
}

over-Ready : Ready (answer 130 120 10)
over-Ready = record {
  valid = sevens-IsValid 130 (omega arith);
  room = omega (arith, size_over);
  line = omega (arith, size_line.1);
  in_type = omega arith;
  in_headers = (omega arith, omega arith, tt);
  in_body = omega arith;
}

write_http_resp_lem_example :
    (w : Written) × (pieces : List UvBuf) × (write_http_resp zeroed advance (answer 10 0 5)
      ≡ some w)
    × (w.write_bufs ≡ map some pieces ++ some terminator ∷ [])
    × (w.nbufs ≡ length pieces)
    × (sent_bytes pieces
        ≡ some (header_text (answer 10 0 5) ++ bytes_of (sevens 10) (record { pos = 0; len = 5 })))
    × (log_write_status w.write_bufs ≡ some (length (header_text (answer 10 0 5)) + 5))
write_http_resp_lem_example =
    write_http_resp_lem zeroed advance (answer 10 0 5) (λ m n. refl) answer-Ready
      (omega (arith, size_header)) (omega arith)

write_http_resp-overrun_example :
    (w : Written) × (pieces : List UvBuf) × (write_http_resp zeroed advance (answer 130 120 10)
      ≡ some w)
    × (w.write_bufs ≡ map some pieces)
    × (length pieces ≡ w.nbufs + 1)
    × (log_write_status w.write_bufs ≡ none)
write_http_resp-overrun_example =
    write_http_resp-overrun zeroed advance (answer 130 120 10) (λ m n. refl) over-Ready
      (omega arith) (omega arith)
