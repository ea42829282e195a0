-- ===== src/Context/Decimal.antt =====
-- How Rust prints and parses a `u64` in decimal, and the test on text that an
-- item's checks use: `trim().is_empty()`.
use Prim.Native.Char.{Char, code}
use semanticore.Prelude.{
  ℕ, zero, suc, ◌+◌, ◌-◌, ◌*◌, ◌/◌, ◌%◌, ◌<◌, String, ◌≡◌, refl, Bool, true, false, ◌&&◌, ◌||◌,
  Option, none, some, arith, ltb, leb, if◌then◌else◌, u64_limit, ◌==◌, nat_eq, Bool-cases, inl, inr,
  ltb→lt, not-ltb→le, ap, sym, ◌∙◌,
}

digit : ℕ → Char
digit d =
    if ltb d 1
    then "0"
    else if ltb d 2
    then "1"
    else if ltb d 3
    then "2"
    else if ltb d 4
    then "3"
    else if ltb d 5
    then "4"
    else if ltb d 6
    then "5"
    else if ltb d 7
    then "6"
    else if ltb d 8
    then "7"
    else if ltb d 9
    then "8"
    else "9"

code-digit : (d : ℕ) → d < 10 → code (digit d) ≡ 48 + d
unfolding digit
code-digit zero h = refl
code-digit (suc zero) h = refl
code-digit (suc (suc zero)) h = refl
code-digit (suc (suc (suc zero))) h = refl
code-digit (suc (suc (suc (suc zero)))) h = refl
code-digit (suc (suc (suc (suc (suc zero))))) h = refl
code-digit (suc (suc (suc (suc (suc (suc zero)))))) h = refl
code-digit (suc (suc (suc (suc (suc (suc (suc zero))))))) h = refl
code-digit (suc (suc (suc (suc (suc (suc (suc (suc zero)))))))) h = refl
code-digit (suc (suc (suc (suc (suc (suc (suc (suc (suc zero))))))))) h = refl
code-digit (suc (suc (suc (suc (suc (suc (suc (suc (suc (suc n)))))))))) h = absurd (omega arith)

-- the digits of `n` in front of `tail`; more fuel than `n` is enough
show_onto : ℕ → ℕ → String → String
show_onto zero n tail = tail
show_onto (suc f) n tail =
    let rest = show_onto f (n / 10) (String.◌∷◌ (digit (n % 10)) tail) in
    if ltb n 10 then String.◌∷◌ (digit n) tail else rest

-- `u64::to_string`
unfoldable pub show : ℕ → String
unfolding show_onto digit
show n = show_onto (suc n) n ""

parse_digits : ℕ → String → Option ℕ
parse_digits acc String.[] = some acc
parse_digits acc (String.◌∷◌ c cs) =
    let d = code c - 48 in
    let next = acc * 10 + d in
    let rest = parse_digits next cs in
    if leb 48 (code c) && leb (code c) 57 && ltb next u64_limit then rest else none

after_sign : String → Option ℕ
after_sign String.[] = none
after_sign (String.◌∷◌ c cs) = parse_digits 0 (String.◌∷◌ c cs)

-- `u64::from_str`: a `+` may stand in front, and a value that does not fit is an error
unfoldable pub parse : String → Option ℕ
unfolding after_sign parse_digits
parse String.[] = none
parse (String.◌∷◌ c cs) = if code c == 43 then after_sign cs else after_sign (String.◌∷◌ c cs)

-- `char::is_whitespace`: the code points with the property White_Space
is_whitespace : ℕ → Bool
is_whitespace c =
    (leb 9 c && leb c 13)
    || (c == 0x20
        || (c == 0x85
            || (c == 0xa0
                || (c == 0x1680
                    || ((leb 0x2000 c && leb c 0x200a)
                        || (c == 0x2028
                            || (c == 0x2029 || (c == 0x202f || (c == 0x205f || c == 0x3000)))))))))

-- `trim().is_empty()`
unfoldable pub is_blank : String → Bool
unfolding is_whitespace
is_blank String.[] = true
is_blank (String.◌∷◌ c cs) = is_whitespace (code c) && is_blank cs

parse_digits-digit :
    (a d : ℕ) (tail : String)
    → d < 10
    → a * 10 + d < u64_limit
    → parse_digits a (String.◌∷◌ (digit d) tail) ≡ parse_digits (a * 10 + d) tail
unfolding parse_digits
parse_digits-digit a d tail h k = ground (arith, code-digit d h)

-- Reading the digits of `n` from nothing is reading on from `n`.
parse_digits-show_onto :
    (f n : ℕ) (tail : String)
    → n < f
    → n < u64_limit
    → parse_digits 0 (show_onto f n tail) ≡ parse_digits n tail
unfolding show_onto
parse_digits-show_onto zero n tail h k = absurd (omega arith)
parse_digits-show_onto (suc f) n tail h k = elim (Bool-cases (ltb n 10)) [
  | inl small ↦
      let start : 0 * 10 + n ≡ n = omega arith in
      rw small (
        parse_digits-digit 0 n tail (ltb→lt n 10 small) (omega arith)
        ∙ ap (λ k. parse_digits k tail) start)
  | inr large ↦
      let more = not-ltb→le n 10 large in
      let split : n / 10 * 10 + n % 10 ≡ n = omega arith in
      rw large (
        parse_digits-show_onto f (n / 10) (String.◌∷◌ (digit (n % 10)) tail) (omega arith)
          (omega arith)
        ∙ parse_digits-digit (n / 10) (n % 10) tail (omega arith) (omega arith)
        ∙ ap (λ k. parse_digits k tail) split)
]

-- What is printed begins with a digit.
show_onto-cons :
    (f n : ℕ) (tail : String)
    → n < f
    → (c : Char) × (cs : String) × (show_onto f n tail ≡ String.◌∷◌ c cs) × ((code c == 43) ≡ false)
unfolding show_onto
show_onto-cons zero n tail h = absurd (omega arith)
show_onto-cons (suc f) n tail h = elim (Bool-cases (ltb n 10)) [
  | inl small ↦ rw small (digit n, tail, refl, ground (arith, code-digit n (ltb→lt n 10 small)))
  | inr large ↦
      let more = not-ltb→le n 10 large in
      let (c, cs, e, plain) =
        show_onto-cons f (n / 10) (String.◌∷◌ (digit (n % 10)) tail) (omega arith) in
      (c, cs, rw large e, plain)
]

parse_unsigned :
    (c : Char) (cs : String)
    → (code c == 43) ≡ false
    → parse (String.◌∷◌ c cs) ≡ parse_digits 0 (String.◌∷◌ c cs)
unfolding parse
parse_unsigned c cs plain = ground arith

-- Parsing what was printed gives the number, for every number of 64 bits.
pub parse-show : (n : ℕ) → n < u64_limit → parse (show n) ≡ some n
unfolding show
parse-show n h =
    let (c, cs, e, plain) = show_onto-cons (suc n) n "" (omega arith) in
    ap parse e
    ∙ parse_unsigned c cs plain
    ∙ sym (ap (parse_digits 0) e)
    ∙ parse_digits-show_onto (suc n) n "" (omega arith) h
    ∙ unfold parse_digits in refl
