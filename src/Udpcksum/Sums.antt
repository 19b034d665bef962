-- ===== src/Udpcksum/Sums.antt =====
-- The Internet checksum of unpv13e/libfree/in_cksum.c, and that of a UDP datagram.
use linux_practice.Base.{
  ℕ, ◌+◌, ◌*◌, ◌%◌, ◌^◌, ◌≤◌, ◌<◌, ◌≡◌, ap, arith, List, [], ◌∷◌, ◌++◌, length, ◌==◌, if_holds, ◌∙◌,
}
use linux_practice.Ping.{low, high}
use linux_practice.Udpcksum.{add_words, complement, in_cksum, nonzero}

-- The sum of the words, with no bound.
unfoldable pub words : List ℕ → ℕ
words [] = 0
words (b ∷ []) = b
words (b ∷ c ∷ bs) = b + 256 * c + words bs

abbrev pub AllBytes : List ℕ → Type 0
AllBytes [] = Unit
AllBytes (b ∷ bs) = (b < 256) × AllBytes bs

pub words_bound : (bs : List ℕ) → AllBytes bs → words bs ≤ 65280 * length bs
unfolding words
words_bound [] h = omega arith
words_bound (b ∷ []) h = omega (arith, h.0)
words_bound (b ∷ c ∷ bs) h = omega (arith, h.0, h.1.0, words_bound bs h.1.1)

add_words-words : (s : ℕ) (bs : List ℕ) → s + words bs < 2 ^ 32 → add_words s bs ≡ s + words bs
unfolding add_words words
add_words-words s [] h = omega arith
add_words-words s (b ∷ []) h = omega (arith, h)
add_words-words s (b ∷ c ∷ bs) h =
    let fits : (s + (b + 256 * c)) % 2 ^ 32 ≡ s + (b + 256 * c) = (omega (arith, h)) in
    rw fits (omega (arith, h, add_words-words (s + (b + 256 * c)) bs (omega (arith, h))))

in_cksum-words : (bs : List ℕ) → words bs < 2 ^ 32 → in_cksum bs ≡ complement (words bs)
unfolding in_cksum
in_cksum-words bs h =
    let sum : add_words 0 bs ≡ words bs =
      (omega (arith, add_words-words 0 bs (omega (arith, h)))) in
    ap complement sum

complement_bound : (s : ℕ) → complement s < 2 ^ 16
unfolding complement
complement_bound s = omega arith

pub in_cksum_bound : (bs : List ℕ) → in_cksum bs < 2 ^ 16
unfolding in_cksum
in_cksum_bound bs = complement_bound (add_words 0 bs)

-- A sum to which its complement is added has the complement 0, and also with 0xffff for 0.
complement_fills : (s : ℕ) → s + 65535 < 2 ^ 32 → complement (s + complement s) ≡ 0
unfolding complement
complement_fills s h = omega (arith, h)

complement_full : (s : ℕ) → s + 65535 < 2 ^ 32 → complement s ≡ 0 → complement (s + 65535) ≡ 0
unfolding complement
complement_full s h e = omega (arith, h, e)

-- A word that stands behind an even number of bytes adds to the sum.
pub words_put :
    (front : List ℕ) (b c : ℕ) (bs : List ℕ)
    → length front % 2 ≡ 0
    → words (front ++ b ∷ c ∷ bs) ≡ words (front ++ 0 ∷ 0 ∷ bs) + (b + 256 * c)
unfolding words
words_put [] b c bs h = omega arith
words_put (x ∷ []) b c bs h = absurd (omega (arith, h))
words_put (x ∷ y ∷ front) b c bs h = omega (arith, words_put front b c bs (omega (arith, h)))

pub nonzero_bound : (c : ℕ) → c < 2 ^ 16 → nonzero c < 2 ^ 16
nonzero_bound c h = ground arith

nonzero_fills : (s : ℕ) → s + 65535 < 2 ^ 32 → complement (s + nonzero (complement s)) ≡ 0
nonzero_fills s h =
    if_holds (λ c. complement (s + c) ≡ 0) (complement s == 0)
      (λ e. complement_full s h (ground (arith, e))) (λ e. complement_fills s h)

-- A word c stored in place of one that was 0 adds c to the sum.
put_word :
    (front bs : List ℕ) (c : ℕ)
    → length front % 2 ≡ 0
    → c < 2 ^ 16
    → words (front ++ low c ∷ high c ∷ bs) ≡ words (front ++ 0 ∷ 0 ∷ bs) + c
put_word front bs c h small = omega (arith, words_put front (low c) (high c) bs h, small)

-- Bytes whose checksum is stored in a word of theirs, which was 0, have the checksum 0.
pub in_cksum-filled :
    (front bs : List ℕ) (c : ℕ)
    → length front % 2 ≡ 0
    → words (front ++ 0 ∷ 0 ∷ bs) + 65535 < 2 ^ 32
    → c ≡ nonzero (in_cksum (front ++ 0 ∷ 0 ∷ bs))
    → in_cksum (front ++ low c ∷ high c ∷ bs) ≡ 0
in_cksum-filled front bs c h fits e =
    let s = words (front ++ 0 ∷ 0 ∷ bs) in
    let was : in_cksum (front ++ 0 ∷ 0 ∷ bs) ≡ complement s =
      (in_cksum-words (front ++ 0 ∷ 0 ∷ bs) (omega (arith, fits))) in
    let c_is : c ≡ nonzero (complement s) = (rw was at e) in
    let small : c < 2 ^ 16 = (rw c_is (nonzero_bound (complement s) (complement_bound s))) in
    let now = put_word front bs c h small in
    let sum : in_cksum (front ++ low c ∷ high c ∷ bs)
        ≡ complement (words (front ++ low c ∷ high c ∷ bs)) =
      (in_cksum-words (front ++ low c ∷ high c ∷ bs) (omega (arith, fits, small, now))) in
    sum ∙ ap complement now ∙ rw c_is (nonzero_fills s fits)
