-- ===== src/Peer/Header/Sent.antt =====
-- What one instance of lmd sends with a fixed16 header, another accepts.
use lmd.Prelude.{
  ℕ, none, zero, suc, ◌+◌, ◌-◌, ◌≤◌, ◌<◌, ◌≡◌, refl, ap, ◌∙◌, true, false, some, [], ◌∷◌, ◌++◌,
  Bytes, codes, ltb, ◌==◌, length, take, replicate, length-append, length-replicate, arith,
}
use lmd.Text.Decimal.{digits, format_ℕ, read_digits, read_digits-format_ℕ, format_ℕ-head, IsDigit}
use lmd.Text.Decimal.Width.{is_digits, format_ℕ-is_digits, length-format_ℕ, power}
use lmd.Peer.Header.{
  take_while, drop_while, is_blank, match_header, check_response_header, pad_left, send_fixed16,
  number, checked,
}

take-append_exact : (n : ℕ) (s t : Bytes) → length s ≡ n → take n (s ++ t) ≡ s
take-append_exact zero [] t h = refl
take-append_exact zero (c ∷ s) t h = absurd (omega arith)
take-append_exact (suc n) [] t h = absurd (omega arith)
take-append_exact (suc n) (c ∷ s) t h = ap (◌∷◌ c) (take-append_exact n s t (omega arith))

drop_while-blanks :
    (k c : ℕ) (s : Bytes) → IsDigit c → drop_while is_blank (replicate k b' ' ++ c ∷ s) ≡ c ∷ s
unfolding drop_while
drop_while-blanks zero c s h = ground arith
drop_while-blanks (suc k) c s h = ground (arith, drop_while-blanks k c s h)

-- the header of a size without its line feed
abbrev header : Bytes → Bytes
header size = codes "200 " ++ (replicate (11 - length size) b' ' ++ size)

match_header-header :
    (c : ℕ) (s : Bytes)
    → IsDigit c
    → is_digits (c ∷ s) ≡ true
    → match_header (header (c ∷ s)) ≡ some (codes "200", c ∷ s)
unfolding match_header take_while drop_while
match_header-header c s h digits =
    rw (drop_while-blanks (11 - length (c ∷ s)) c s h) (rw digits refl)

code-200 : format_ℕ 200 ≡ codes "200"
unfolding format_ℕ digits
code-200 = refl

sent :
    (bytes : Bytes)
    → send_fixed16 200 bytes ≡ header (format_ℕ (length bytes + 1)) ++ (10 ∷ (bytes ++ 10 ∷ []))
unfolding send_fixed16 pad_left
sent bytes =
    let size = format_ℕ (length bytes + 1) in
    let rest = 10 ∷ (bytes ++ 10 ∷ []) in
    let blanks = replicate (11 - length size) b' ' in
    ap (λ code. code ++ (b' ' ∷ ((blanks ++ size) ++ rest))) code-200

length-header : (size : Bytes) → length size ≤ 11 → length (header size) ≡ 15
length-header size h = omega (
  arith,
  length-append (codes "200 ") (replicate (11 - length size) b' ' ++ size),
  length-append (replicate (11 - length size) b' ') size,
  length-replicate {A = ℕ} (11 - length size) b' ',
)

equal_self_ℕ : (n : ℕ) → (n == n) ≡ true
equal_self_ℕ n = ground arith

number_200 : number (codes "200") ≡ 200
unfolding read_digits
number_200 = refl

number-format : (n : ℕ) → number (format_ℕ n) ≡ n
number-format n = rw (read_digits-format_ℕ n, number) refl

accept :
    (bytes code size : Bytes) (n : ℕ)
    → length bytes ≡ 16 + n
    → match_header (take 15 bytes) ≡ some (code, size)
    → number code ≡ 200
    → number size ≡ n
    → check_response_header bytes ≡ none
unfolding check_response_header
accept bytes code size n long matched is_200 is_n =
    let enough : ltb (length bytes) 16 ≡ false = ground arith in
    let left : length bytes - 16 ≡ n = omega arith in
    rw enough
      (ap (checked (length bytes - 16)) matched ∙ (rw (is_200, is_n, left, equal_self_ℕ n) refl))

-- With the code 200 and a size of at most eleven digits, the header that is sent is accepted.
pub check_response_header-send :
    (bytes : Bytes)
    → length bytes + 1 < power 11
    → check_response_header (send_fixed16 200 bytes) ≡ none
check_response_header-send bytes small =
    let size = format_ℕ (length bytes + 1) in
    let rest = 10 ∷ (bytes ++ 10 ∷ []) in
    let (c, s, first, digit) = format_ℕ-head (length bytes + 1) in
    let width = length-header size (length-format_ℕ 10 (length bytes + 1) small) in
    let whole = length-append (header size) rest in
    let tail = length-append bytes (10 ∷ []) in
    let digits = format_ℕ-is_digits (length bytes + 1) in
    let matched : match_header (header size) ≡ some (codes "200", size) =
      rw first (match_header-header c s digit (rw first at digits)) in
    rw (sent bytes) (
      accept (header size ++ rest) (codes "200") size (length bytes + 1)
        (omega (arith, width, whole, tail))
        (ap match_header (take-append_exact 15 (header size) rest width) ∙ matched) number_200
        (number-format (length bytes + 1)))
