-- ===== src/Crlf.antt =====
-- unpv13e/sock/crlf.c: newlines to return and newline, and back.
pub mod Lines
mod Tests
use linux_practice.Base.{
  ℕ, suc, Bool, true, false, Option, none, some, List, [], ◌∷◌, length, leb, ltb, ◌==◌,
  if◌then◌else◌,
}

abbrev pub newline : ℕ
newline = 10

abbrev pub return : ℕ
return = 13

-- `*dst++ = c;` before what the loop does next; `none` is an end by err_quit.
abbrev pub put : ℕ → Option (List ℕ × ℕ) → Option (List ℕ × ℕ)
put c none = none
put c (some (dst, lenout)) = some (c ∷ dst, lenout)

-- `if (++lenout >= dstsize) err_quit(...)`: `next` goes on with the new lenout.
abbrev pub count_out : ℕ → ℕ → (ℕ → Option (List ℕ × ℕ)) → Option (List ℕ × ℕ)
count_out dstsize lenout next = if leb dstsize (suc lenout) then none else next (suc lenout)

abbrev pub add_char : ℕ → Bool → ℕ → ℕ → (ℕ → Option (List ℕ × ℕ)) → Option (List ℕ × ℕ)
add_char dstsize true c lenout rest = count_out dstsize lenout (λ n. put return (put c (rest n)))
add_char dstsize false c lenout rest = put c (rest lenout)

-- The bytes at dst, and lenout.
unfoldable pub add_loop : ℕ → List ℕ → ℕ → Option (List ℕ × ℕ)
add_loop dstsize [] lenout = some ([], lenout)
add_loop dstsize (c ∷ src) lenout = add_char dstsize (c == newline) c lenout (add_loop dstsize src)

unfoldable pub crlf_add : ℕ → List ℕ → Option (List ℕ × ℕ)
crlf_add dstsize src = if ltb dstsize (length src) then none else add_loop dstsize src (length src)

abbrev pub strip_char : ℕ → Bool → ℕ → ℕ → (ℕ → Option (List ℕ × ℕ)) → Option (List ℕ × ℕ)
strip_char dstsize true c lenout rest = rest lenout
strip_char dstsize false c lenout rest = count_out dstsize lenout (λ n. put c (rest n))

unfoldable pub strip_loop : ℕ → List ℕ → ℕ → Option (List ℕ × ℕ)
strip_loop dstsize [] lenout = some ([], lenout)
strip_loop dstsize (c ∷ src) lenout =
    strip_char dstsize (c == return) c lenout (strip_loop dstsize src)

unfoldable pub crlf_strip : ℕ → List ℕ → Option (List ℕ × ℕ)
crlf_strip dstsize src = strip_loop dstsize src 0
